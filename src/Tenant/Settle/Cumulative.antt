-- ===== src/Tenant/Settle/Cumulative.antt =====
-- The cumulative acknowledgement of a queue, up to a sequence number.
use rocksqueue.Base.{
  ℕ, ◌+◌, ◌^◌, ◌≤◌, ◌<◌, ◌≡◌, refl, sym, ap, ◌∙◌, true, false, none, some, List, [], ◌∷◌, ◌++◌, map,
  length, length-append, append_assoc, append-nil, arith, ok, step_ok, leb, ltb, if◌then◌else◌, All,
  Bool-cases, Option-cases, inl, inr, Ordering, lt→ltb, le→ltb_false, leb→le, ltb→lt,
}
use rocksqueue.Bytes.{Bytes, beq, compare_bytes}
use rocksqueue.Rocks.Table.{Table, lookup, delete_all, IsSorted, Above}
use rocksqueue.Rocks.Table.Lookup.{lookup-Above, Above-trans}
use rocksqueue.Rocks.Table.Prefix.{
  beq_of_lt, delete_first, lookup-prefixed, prefixed-delete_all, prefixed-IsSorted,
}
use rocksqueue.Rocks.World.{World, FaultFree}
use rocksqueue.Task.Keys.{encode_key, decode_key_seq, queue_prefix}
use rocksqueue.Task.Keys.Laws.{compare-encode_key, decode_key_seq-encode_key, starts_with_self}
use rocksqueue.Tenant.Names.{cf_pending, cf_inflight, cf_dlq}
use rocksqueue.Tenant.Names.Distinct.{inflight_pending, inflight_dlq}
use rocksqueue.Tenant.State.{Registry}
use rocksqueue.Tenant.State.View.{
  Provisioned, pending, inflight, dlq, of_queue, require_cf_ok, commit,
}
use rocksqueue.Tenant.State.Deletions.{
  deletions, deletions-snoc, commit-deletions, table-deletions, table-deletions_other,
}
use rocksqueue.Tenant.Settle.{cumulative_loop, cumulative_ack}

-- Every key of the table was made for the queue.
abbrev pub HasKeysOf : (queue : Bytes) → Table → Type 0
HasKeysOf queue t = All (λ e. (n : ℕ) × (n < 2 ^ 64) × (e.0 ≡ encode_key queue n)) t

-- The keys that the loop takes.
unfoldable pub covered : ℕ → Table → List Bytes
covered up_to [] = []
covered up_to ((k, v) ∷ t) = elim (decode_key_seq k) [
  | none ↦ covered up_to t
  | some seq ↦ let rest = covered up_to t in if ltb up_to seq then [] else k ∷ rest
]

module _ (queue : Bytes) (up_to : ℕ) where
  covered_stop :
      (k v : Bytes) (t : Table) (m : ℕ)
      → m < 2 ^ 64
      → k ≡ encode_key queue m
      → up_to < m
      → covered up_to ((k, v) ∷ t) ≡ []
  unfolding covered
  covered_stop k v t m b e h =
      rw (covered, e, decode_key_seq-encode_key queue m b, lt→ltb up_to m h) refl

  covered_take :
      (k v : Bytes) (t : Table) (m : ℕ)
      → m < 2 ^ 64
      → k ≡ encode_key queue m
      → m ≤ up_to
      → covered up_to ((k, v) ∷ t) ≡ k ∷ covered up_to t
  unfolding covered
  covered_take k v t m b e h =
      let seq : decode_key_seq k ≡ some m =
        ap decode_key_seq e ∙ decode_key_seq-encode_key queue m b in
      rw (covered, seq, le→ltb_false m up_to h) refl

  lookup-covered :
      (n : ℕ) (t : Table)
      → n < 2 ^ 64
      → IsSorted t
      → HasKeysOf queue t
      → lookup (encode_key queue n) (delete_all (covered up_to t) t)
        ≡ (if leb n up_to then none else lookup (encode_key queue n) t)
  unfolding delete_all lookup
  lookup-covered n [] b s ks = unfold covered in ground arith
  lookup-covered n ((k, v) ∷ t) b s ((m, c, e), ks) = elim (Bool-cases (ltb up_to m)) [
    | inl h ↦
        rw (covered_stop k v t m c e (ltb→lt up_to m h)) (ground (arith, beyond (ltb→lt up_to m h)))
    | inr h ↦ rw (covered_take k v t m c e (ground arith)) (
        ap (λ u. lookup (encode_key queue n) (delete_all (covered up_to t) u))
          (delete_first k v t s)
        ∙ lookup-covered n t b s.1 ks
        ∙ ground (arith, before (ground arith)))
  ]
    where
      below : n < m → Above (encode_key queue n) ((k, v) ∷ t)
      below h =
          let lt : compare_bytes (encode_key queue n) k ≡ Ordering.lt =
            rw e (compare-encode_key queue n m h c) in
          (lt, Above-trans (encode_key queue n) k t lt s.0)

      beyond : up_to < m → leb n up_to ≡ true → lookup (encode_key queue n) ((k, v) ∷ t) ≡ none
      beyond h l =
          lookup-Above (encode_key queue n) ((k, v) ∷ t) (below (omega (arith, leb→le n up_to l)))

      before : m ≤ up_to → leb n up_to ≡ false → beq k (encode_key queue n) ≡ false
      before h l = rw e (beq_of_lt _ _ (compare-encode_key queue m n (ground (arith, h, l)) b))

  length-covered :
      (t : Table)
      → IsSorted t
      → HasKeysOf queue t
      → length (covered up_to t) + length (delete_all (covered up_to t) t) ≡ length t
  unfolding delete_all
  length-covered [] s ks = unfold covered in omega arith
  length-covered ((k, v) ∷ t) s ((m, c, e), ks) = elim (Bool-cases (ltb up_to m)) [
    | inl h ↦ rw (covered_stop k v t m c e (ltb→lt up_to m h)) (omega arith)
    | inr h ↦ rw (covered_take k v t m c e (ground arith)) (
        omega (
          arith,
          length-covered t s.1 ks,
          ap (λ u. length (delete_all (covered up_to t) u)) (delete_first k v t s),
        ))
  ]

module _ {w : World} (ff : FaultFree w) (tenant queue : Bytes) (up_to : ℕ) where
  cumulative_loop_lem :
      (cf : Bytes) (t : Table) (ks : List Bytes)
      → cumulative_loop w cf up_to (map ok t) (deletions cf ks) (length ks)
        ≡ ok (deletions cf (ks ++ covered up_to t), length (ks ++ covered up_to t))
  unfolding cumulative_loop covered
  cumulative_loop_lem cf [] ks = rw (append-nil ks) refl
  cumulative_loop_lem cf ((k, v) ∷ t) ks = elim (Option-cases (decode_key_seq k)) [
    | inl d ↦ rw (cumulative_loop, covered, d) (cumulative_loop_lem cf t ks)
    | inr (n, d) ↦ elim (Bool-cases (ltb up_to n)) [
      | inl h ↦ rw (cumulative_loop, covered, d) (rw h (rw (append-nil ks) refl))
      | inr h ↦
          rw (cumulative_loop, covered, d)
            (rw h (
              rw (deletions-snoc cf k ks, length-snoc)
                (cumulative_loop_lem cf t (ks ++ k ∷ [])
                  ∙ ap (λ j. ok (deletions cf j, length j)) (append_assoc ks (k ∷ []) _))))
    ]
  ]
    where
      length-snoc : length ks + 1 ≡ length (ks ++ k ∷ [])
      length-snoc = omega (arith, length-append ks (k ∷ []))

  pub cumulative_run :
      (s : Registry w)
      → Provisioned w tenant s
      → let ks = covered up_to (of_queue queue (inflight ff tenant s)) in
        cumulative_ack w tenant queue up_to s
        ≡ (ok (length ks), commit ff (deletions (cf_inflight tenant) ks) s)
  unfolding cumulative_ack deletions
  cumulative_run s p =
      let cf = cf_inflight tenant in
      let t = of_queue queue (inflight ff tenant s) in
      let ks = covered up_to t in
      let scanned =
        ap (λ l. cumulative_loop w cf up_to l [] 0)
          (ff.scan_prefix_lem s.db cf (queue_prefix queue) p.has_inflight)
        ∙ cumulative_loop_lem cf t [] in
      step_ok _ (require_cf_ok ff cf s p.has_inflight)
        (step_ok _ (λ i. (scanned i, s)) (commit-deletions ff cf ks s p.has_inflight (length ks)))

  -- On a database where no call fails, if the queue's inflight keys were all made for it, a
  -- cumulative acknowledgement up to a sequence number deletes exactly the queue's inflight records
  -- whose sequence number is at most that one, returns their number, and leaves pending and the DLQ as
  -- they were.
  pub cumulative_ack_lem :
      (n : ℕ) (s : Registry w)
      → n < 2 ^ 64
      → Provisioned w tenant s
      → HasKeysOf queue (of_queue queue (inflight ff tenant s))
      → let r = cumulative_ack w tenant queue up_to s in
        (count : ℕ) × (r.0 ≡ ok count)
        × (count + length (of_queue queue (inflight ff tenant r.1))
            ≡ length (of_queue queue (inflight ff tenant s)))
        × (lookup (encode_key queue n) (inflight ff tenant r.1)
            ≡ (if leb n up_to then none else lookup (encode_key queue n) (inflight ff tenant s)))
        × (pending ff tenant r.1 ≡ pending ff tenant s)
        × (dlq ff tenant r.1 ≡ dlq ff tenant s)
  cumulative_ack_lem n s b p h =
      let cf = cf_inflight tenant in
      let t = of_queue queue (inflight ff tenant s) in
      let ks = covered up_to t in
      let s' = commit ff (deletions cf ks) s in
      let sorted =
        prefixed-IsSorted (queue_prefix queue) (inflight ff tenant s) (ff.table_sorted s.db cf) in
      let gone : of_queue queue (inflight ff tenant s') ≡ delete_all ks t =
        ap (of_queue queue) (table-deletions ff cf ks s p.has_inflight)
        ∙ prefixed-delete_all (queue_prefix queue) ks _ in
      let other = table-deletions_other ff cf ks s p.has_inflight in
      let at = λ (n : ℕ) (u : Table).
        lookup-prefixed (queue_prefix queue) (encode_key queue n) u (starts_with_self queue n) in
      rw (cumulative_run s p) (
        length ks,
        refl,
        rw gone (length-covered queue up_to t sorted h),
        sym (at n (inflight ff tenant s'))
            ∙ ap (lookup (encode_key queue n)) gone
            ∙ lookup-covered queue up_to n t b sorted h
            ∙ ap (λ x. if leb n up_to then none else x) (at n (inflight ff tenant s)),
        other (cf_pending tenant) (inflight_pending tenant tenant),
        other (cf_dlq tenant) (inflight_dlq tenant tenant),
      )
