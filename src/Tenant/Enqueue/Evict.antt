-- ===== src/Tenant/Enqueue/Evict.antt =====
-- The EvictOldest policy: the oldest pending tasks make room.
use rocksqueue.Base.{
  ℕ, zero, suc, ◌+◌, ◌-◌, ◌^◌, ◌≤◌, ◌<◌, ◌≡◌, refl, ap, ◌∙◌, some, List, [], ◌∷◌, ◌++◌, map, length,
  take, drop, arith, Result, ok, step_ok, ltb, Bool-cases, inl, inr, length-drop, length-append,
  append_assoc, append-nil, max, le→leb, lt→leb_false,
}
use rocksqueue.Bytes.{Bytes}
use rocksqueue.Policy.{NamespacePolicy, evict_oldest}
use rocksqueue.Rocks.Table.{Table, keys, Below}
use rocksqueue.Rocks.Table.Prefix.{prefixed-delete_all, delete_all-keys-take, prefixed-IsSorted}
use rocksqueue.Rocks.World.{World, FaultFree}
use rocksqueue.Task.Keys.{queue_prefix}
use rocksqueue.Tenant.Names.{cf_pending, cf_inflight, cf_dlq}
use rocksqueue.Tenant.Names.Distinct.{pending_inflight, pending_dlq}
use rocksqueue.Tenant.State.{Registry, queue_lock}
use rocksqueue.Tenant.State.View.{
  Provisioned, pending, inflight, dlq, of_queue, require_cf_ok, commit, commit_if_unit,
  commit-Provisioned, commit-seq,
}
use rocksqueue.Tenant.State.Deletions.{
  deletions, deletions-snoc, deletions-Known, nonempty-deletions, table-deletions,
  table-deletions_other,
}
use rocksqueue.Tenant.Enqueue.{
  Times, enforce, enforce_quota, enqueue_batch_sync, evict_loop, evict_oldest_pending,
}
use rocksqueue.Tenant.Enqueue.Append.{IsFresh, locked, locked-Provisioned}
use rocksqueue.Tenant.Enqueue.Quota.{
  backlog, excess, enforce_lem, Enqueued, Enqueued-backlog, admitted,
}

module _ {w : World} (ff : FaultFree w) (tenant queue : Bytes) where
  length-snoc : (k : Bytes) (ks : List Bytes) → length ks + 1 ≡ length (ks ++ k ∷ [])
  length-snoc k ks = omega (arith, length-append ks (k ∷ []))

  evict_loop_lem :
      (cf : Bytes) (n count : ℕ) (t : Table) (ks : List Bytes)
      → count ≡ length ks + n
      → evict_loop w cf (map ok t) count (length ks) (deletions cf ks)
        ≡ ok (length (ks ++ keys (take n t)), deletions cf (ks ++ keys (take n t)))
  unfolding evict_loop
  evict_loop_lem cf zero count [] ks h = rw (append-nil ks) refl
  evict_loop_lem cf (suc n) count [] ks h = rw (append-nil ks) refl
  evict_loop_lem cf zero count ((k, v) ∷ t) ks h =
      rw (append-nil ks, le→leb count (length ks) (omega arith)) refl
  evict_loop_lem cf (suc n) count ((k, v) ∷ t) ks h =
      rw (lt→leb_false (length ks) count (omega arith), deletions-snoc cf k ks, length-snoc k ks)
        (evict_loop_lem cf n count t (ks ++ k ∷ []) (omega (arith, length-snoc k ks))
          ∙ ap (λ j. ok (length j, deletions cf j)) (append_assoc ks (k ∷ []) _))

  -- The oldest `n` pending keys of the queue.
  abbrev pub oldest : ℕ → Registry w → List Bytes
  oldest n s = keys (take n (of_queue queue (pending ff tenant s)))

  -- The registry without the oldest `n` pending tasks of the queue.
  abbrev pub evicted : ℕ → Registry w → Registry w
  evicted n s = commit ff (deletions (cf_pending tenant) (oldest n s)) s

  evict_run :
      (n : ℕ) (s : Registry w)
      → Provisioned w tenant s
      → evict_oldest_pending w tenant queue n s ≡ (ok tt, evicted n s)
  unfolding evict_oldest_pending
  evict_run n s p = step_ok _ (require_cf_ok ff (cf_pending tenant) s p.has_pending) (
      step_ok _ (λ i. (loop i, s))
        (commit_if_unit ff _ _ s
          (deletions-Known (w.has_cf s.db) (cf_pending tenant) (oldest n s) p.has_pending)
          (nonempty-deletions ff (cf_pending tenant) (oldest n s) s p.has_pending)))
    where
      loop :
          evict_loop w
            (cf_pending tenant)
            (w.scan_prefix s.db (cf_pending tenant) (queue_prefix queue))
            n
            0
            []
          ≡ ok (length (oldest n s), deletions (cf_pending tenant) (oldest n s))
      loop =
          unfold deletions in
          rw (ff.scan_prefix_lem s.db (cf_pending tenant) (queue_prefix queue) p.has_pending)
            (evict_loop_lem (cf_pending tenant) n n _ [] (omega arith))

  table-evicted :
      (n : ℕ) (s : Registry w)
      → Provisioned w tenant s
      → (of_queue queue (pending ff tenant (evicted n s))
          ≡ drop n (of_queue queue (pending ff tenant s)))
        × (inflight ff tenant (evicted n s) ≡ inflight ff tenant s)
        × (dlq ff tenant (evicted n s) ≡ dlq ff tenant s)
  table-evicted n s p =
      let sorted =
        prefixed-IsSorted (queue_prefix queue) (pending ff tenant s) (ff.table_sorted s.db _) in
      let other = table-deletions_other ff (cf_pending tenant) (oldest n s) s p.has_pending in
      (
        ap (of_queue queue) (table-deletions ff (cf_pending tenant) (oldest n s) s p.has_pending)
            ∙ prefixed-delete_all (queue_prefix queue) (oldest n s) _
            ∙ delete_all-keys-take n _ sorted,
        other (cf_inflight tenant) (pending_inflight tenant tenant),
        other (cf_dlq tenant) (pending_dlq tenant tenant),
      )

  pub evict_enforced :
      (policy : NamespacePolicy) (times : Times w) (quota n : ℕ) (s : Registry w)
      → policy.backlog_quota ≡ some quota
      → policy.backlog_policy ≡ evict_oldest
      → Provisioned w tenant s
      → enforce_quota w tenant queue policy n times s
        ≡ (ok tt, evicted (excess ff tenant queue quota n s) s)
  unfolding enforce deletions
  evict_enforced policy times quota n s has is p =
      enforce_lem ff tenant queue policy times quota n s has p
      ∙ elim (Bool-cases (ltb quota (backlog ff tenant queue s + n))) [
        | inl h ↦ rw (is, enforce, h) (evict_run _ s p)
        | inr h ↦
            let none_over : excess ff tenant queue quota n s ≡ 0 = ground arith in
            rw (is, enforce, h, none_over) refl
      ]

  Enqueued-eq :
      (now : ℕ) (ps : List (Bytes × Bytes)) (r : Result (List Bytes) × Registry w) {seq seq' : ℕ}
      {a a' i i' d d' : Table}
      → seq ≡ seq'
      → a ≡ a'
      → i ≡ i'
      → d ≡ d'
      → Enqueued ff tenant queue now seq ps a i d r
      → Enqueued ff tenant queue now seq' ps a' i' d' r
  Enqueued-eq now ps r e f g h x = rw (← e, ← f, ← g, ← h) x

  Below-drop : (k : Bytes) (n : ℕ) (t : Table) → Below k t → Below k (drop n t)
  Below-drop k zero t b = b
  Below-drop k (suc n) [] b = b
  Below-drop k (suc n) ((j, v) ∷ t) b = Below-drop k n t b.1

  -- Under the EvictOldest policy, on a database where no call fails, an enqueue succeeds if the
  -- counter is above the queue's keys and does not wrap: as many of the oldest pending tasks as
  -- the batch exceeds the quota by are gone, all pending ones if there are fewer, the batch is
  -- at the end of the queue, and the other two column families are as they were. The backlog is
  -- then at most the quota or, where the inflight tasks and the batch alone exceed it, their number.
  pub enqueue-evict_oldest :
      (ps : List (Bytes × Bytes)) (policy : NamespacePolicy) (times : Times w) (quota : ℕ)
      (s : Registry w)
      → Provisioned w tenant s
      → policy.backlog_quota ≡ some quota
      → policy.backlog_policy ≡ evict_oldest
      → IsFresh queue s.seq (pending ff tenant s)
      → s.seq + length ps < 2 ^ 64
      → let r = enqueue_batch_sync w tenant queue ps policy times s in
        Enqueued ff tenant queue times.now s.seq ps
          (drop
            (backlog ff tenant queue s + length ps - quota)
            (of_queue queue (pending ff tenant s)))
          (inflight ff tenant s)
          (dlq ff tenant s)
          r
        × (backlog ff tenant queue r.1
            ≤ max quota (length (of_queue queue (inflight ff tenant s)) + length ps))
  unfolding queue_lock
  enqueue-evict_oldest ps policy times quota s p has is f b =
      let s' = locked w tenant queue s in
      let p' = locked-Provisioned w tenant queue s p in
      let n = length ps in
      let k = backlog ff tenant queue s + n - quota in
      let t = table-evicted k s' p' in
      let same_seq : (evicted k s').seq ≡ s.seq =
        commit-seq ff (deletions (cf_pending tenant) (oldest k s')) s' in
      let e = Enqueued-eq times.now ps _ same_seq t.0 t.1 t.2 (
        admitted ff tenant queue ps policy times s (evicted k s')
          (evict_enforced policy times quota n s' has is p') (commit-Provisioned ff tenant _ s' p')
          (rw (same_seq, t.0) (Below-drop _ k _ f)) (rw same_seq b)) in
      (
        e,
        omega (
          arith,
          Enqueued-backlog ff tenant queue times.now s.seq ps _ _ _ _ e,
          length-drop k (of_queue queue (pending ff tenant s)),
        ),
      )
