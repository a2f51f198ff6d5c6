-- ===== src/Tenant/Settle/Acks.antt =====
-- Acknowledgements delete exactly the named inflight records, and count them once.
use rocksqueue.Base.{
  ℕ, ◌+◌, ◌≡◌, refl, ap, ◌∙◌, true, false, none, some, List, [], ◌∷◌, ◌++◌, length, length-append,
  arith, ◌||◌, ok, if◌then◌else◌, Bool-cases, Option-cases, inl, inr, step_ok,
}
use rocksqueue.Bytes.{Bytes}
use rocksqueue.Bytes.Order.{beq_iff}
use rocksqueue.Rocks.Table.{Table, lookup, delete_all, IsSorted}
use rocksqueue.Rocks.Table.Lookup.{lookup-delete, length-delete, delete-IsSorted, table_ext}
use rocksqueue.Rocks.World.{World, FaultFree}
use rocksqueue.Tenant.Names.{lock_name, cf_pending, cf_inflight, cf_dlq}
use rocksqueue.Tenant.Names.Distinct.{inflight_pending, inflight_dlq}
use rocksqueue.Tenant.State.{ensure, Registry, ack_lock}
use rocksqueue.Tenant.State.View.{
  Provisioned, pending, inflight, dlq, require_cf_ok, commit, commit-Provisioned,
}
use rocksqueue.Tenant.State.Deletions.{
  deletions, deletions-snoc, delete_all-snoc, commit-deletions, table-deletions,
  table-deletions_other,
}
use rocksqueue.Tenant.Settle.{elem, ack_loop, ack_queues, take_ack_locks, ack_batch}

-- What deleting `ks` from `t` has done once the keys `seen` are handled.
record Handled (t : Table) (seen ks : List Bytes) : Type 0 where
  counted : length ks + length (delete_all ks t) ≡ length t
  looked : (j : Bytes) → lookup j (delete_all ks t) ≡ (if elem j seen then none else lookup j t)
  sorted : IsSorted (delete_all ks t)

Handled-none : (t : Table) → IsSorted t → Handled t [] []
unfolding delete_all elem
Handled-none t s = record { counted = omega arith; looked = λ j. refl; sorted = s }

Handled-absent :
    (t : Table) (seen ks : List Bytes) (k : Bytes)
    → lookup k t ≡ none
    → Handled t seen ks
    → Handled t (k ∷ seen) ks
unfolding elem
Handled-absent t seen ks k h a = record {
  counted = a.counted;
  looked = λ j. ground (arith, a.looked j, beq_iff k j);
  sorted = a.sorted;
}

Handled-present :
    (t : Table) (seen ks : List Bytes) (k v : Bytes)
    → elem k seen ≡ false
    → lookup k t ≡ some v
    → Handled t seen ks
    → Handled t (k ∷ seen) (ks ++ k ∷ [])
unfolding elem
Handled-present t seen ks k v new h a =
    let u = delete_all ks t in
    let at : lookup k u ≡ some v = a.looked k ∙ ground arith in
    record {
      counted =
          rw (delete_all-snoc k ks t)
            (omega (arith, length-delete k v u a.sorted at, a.counted, length-append ks (k ∷ [])));
      looked = λ j. rw (delete_all-snoc k ks t, lookup-delete k j u) (ground (arith, a.looked j));
      sorted = rw (delete_all-snoc k ks t) (delete-IsSorted k u a.sorted);
    }

length-snoc : (k : Bytes) (ks : List Bytes) → length ks + 1 ≡ length (ks ++ k ∷ [])
length-snoc k ks = omega (arith, length-append ks (k ∷ []))

-- The map of locks when locks of the queues were taken in this order.
abbrev pub locks_after : (tenant : Bytes) (queues locks : List Bytes) → List Bytes
locks_after tenant [] locks = locks
locks_after tenant (q ∷ qs) locks = locks_after tenant qs (ensure (lock_name tenant q) locks)

module _ {w : World} (ff : FaultFree w) where
  ack_loop_lem :
      (cf : Bytes) (db : w.Db) (keys seen ks : List Bytes)
      → w.has_cf db cf ≡ true
      → Handled (ff.table db cf) seen ks
      → (ks' : List Bytes) × (ack_loop w cf db keys seen (deletions cf ks) (length ks)
          ≡ ok (deletions cf ks', length ks'))
        × (length ks' + length (delete_all ks' (ff.table db cf)) ≡ length (ff.table db cf))
        × ((j : Bytes)
            → lookup j (delete_all ks' (ff.table db cf))
              ≡ (if elem j seen || elem j keys then none else lookup j (ff.table db cf)))
  unfolding ack_loop elem
  ack_loop_lem cf db [] seen ks has a = (ks, refl, a.counted, λ j. ground (arith, a.looked j))
  ack_loop_lem cf db (k ∷ keys) seen ks has a = elim (Bool-cases (elem k seen)) [
    | inl old ↦
        let r = ack_loop_lem cf db keys seen ks has a in
        (r.0, rw (old, ack_loop) r.1, r.2, λ j. r.3 j ∙ ground (arith, beq_iff k j))
    | inr new ↦ elim (Option-cases (lookup k (ff.table db cf))) [
      | inl h ↦
          let r = ack_loop_lem cf db keys (k ∷ seen) ks has (Handled-absent _ seen ks k h a) in
          (
            r.0,
            rw (new, ff.get_cf_lem db cf k has, h) r.1,
            r.2,
            λ j. r.3 j ∙ ground (arith, beq_iff k j),
          )
      | inr (v, h) ↦
          let r =
            ack_loop_lem cf db keys (k ∷ seen) (ks ++ k ∷ []) has
              (Handled-present _ seen ks k v new h a) in
          (
            r.0,
            rw (new, ff.get_cf_lem db cf k has, h)
                (rw (deletions-snoc cf k ks) (
                  ap (ack_loop w cf db keys (k ∷ seen) (deletions cf (ks ++ k ∷ [])))
                    (length-snoc k ks)
                  ∙ r.1)),
            r.2,
            λ j. r.3 j ∙ ground (arith, beq_iff k j),
          )
    ]
  ]

  take_ack_locks_run :
      (tenant : Bytes) (queues : List Bytes) (s : Registry w)
      → take_ack_locks w tenant queues s
        ≡ (ok tt, record s { ack_locks = locks_after tenant queues s.ack_locks })
  unfolding take_ack_locks ack_lock
  take_ack_locks_run tenant [] s = refl
  take_ack_locks_run tenant (q ∷ qs) s = take_ack_locks_run tenant qs (ack_lock w tenant q s).1

  -- The keys that are found, the locks that are made, and what is left.
  pub ack_batch_run :
      (tenant : Bytes) (keys : List Bytes) (s : Registry w)
      → Provisioned w tenant s
      → (ks : List Bytes) × (locks : List Bytes) × (ack_batch w tenant keys s ≡ (
        ok (length ks),
        commit ff (deletions (cf_inflight tenant) ks) (record s { ack_locks = locks }),
      ))
        × (length ks + length (delete_all ks (inflight ff tenant s))
            ≡ length (inflight ff tenant s))
        × ((j : Bytes)
            → lookup j (delete_all ks (inflight ff tenant s))
              ≡ (if elem j keys then none else lookup j (inflight ff tenant s)))
        × (locks ≡ locks_after tenant (ack_queues w keys) s.ack_locks)
  unfolding ack_batch deletions elem
  ack_batch_run tenant keys s p =
      let locks = locks_after tenant (ack_queues w keys) s.ack_locks in
      let s' = record s { ack_locks = locks } in
      let loop =
        ack_loop_lem (cf_inflight tenant) s.db keys [] [] p.has_inflight
          (Handled-none _ (ff.table_sorted s.db _)) in
      (
        loop.0,
        locks,
        step_ok _ (require_cf_ok ff (cf_inflight tenant) s p.has_inflight) (
            step_ok _ (take_ack_locks_run tenant (ack_queues w keys) s) (
              step_ok _ (λ i. (loop.1 i, s'))
                (commit-deletions ff (cf_inflight tenant) loop.0 s' p.has_inflight
                  (length loop.0)))),
        loop.2,
        loop.3,
        refl,
      )

  -- On a database where no call fails, a batch of acknowledgements deletes exactly the inflight
  -- records of the given keys, returns their number, each counted once, and changes no other
  -- record, pending and DLQ included; the tenant's column families still exist.
  pub ack_batch_lem :
      (tenant : Bytes) (keys : List Bytes) (s : Registry w)
      → Provisioned w tenant s
      → let r = ack_batch w tenant keys s in
        (n : ℕ) × (r.0 ≡ ok n)
        × (n + length (inflight ff tenant r.1) ≡ length (inflight ff tenant s))
        × ((j : Bytes)
            → lookup j (inflight ff tenant r.1)
              ≡ (if elem j keys then none else lookup j (inflight ff tenant s)))
        × (pending ff tenant r.1 ≡ pending ff tenant s)
        × (dlq ff tenant r.1 ≡ dlq ff tenant s)
        × Provisioned w tenant r.1
  ack_batch_lem tenant keys s p =
      let run = ack_batch_run tenant keys s p in
      let s' = record s { ack_locks = run.1 } in
      let gone = table-deletions ff (cf_inflight tenant) run.0 s' p.has_inflight in
      let other = table-deletions_other ff (cf_inflight tenant) run.0 s' p.has_inflight in
      rw run.2 (
        length run.0,
        refl,
        rw gone run.3,
        λ j. ap (lookup j) gone ∙ run.4 j,
        other (cf_pending tenant) (inflight_pending tenant tenant),
        other (cf_dlq tenant) (inflight_dlq tenant tenant),
        commit-Provisioned ff tenant _ s' (record {
          has_pending = p.has_pending;
          has_inflight = p.has_inflight;
          has_dlq = p.has_dlq;
        }),
      )

  -- A second batch of the same keys finds nothing.
  pub ack_batch_twice :
      (tenant : Bytes) (keys : List Bytes) (s : Registry w)
      → Provisioned w tenant s
      → let r = ack_batch w tenant keys (ack_batch w tenant keys s).1 in
        (r.0 ≡ ok 0) × (inflight ff tenant r.1 ≡ inflight ff tenant (ack_batch w tenant keys s).1)
  ack_batch_twice tenant keys s p =
      let a = ack_batch_lem tenant keys s p in
      let b = ack_batch_lem tenant keys (ack_batch w tenant keys s).1 a.6 in
      let same : inflight ff tenant (ack_batch w tenant keys (ack_batch w tenant keys s).1).1
          ≡ inflight ff tenant (ack_batch w tenant keys s).1 =
        table_ext _ _ (ff.table_sorted _ _) (ff.table_sorted _ _)
          (λ j. ground (arith, a.3 j, b.3 j)) in
      (b.1 ∙ ap ok (omega (arith, b.2, ap length same)), same)
