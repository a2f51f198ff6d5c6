-- ===== src/Tenant/Enqueue/Quota.antt =====
-- The backlog quota of an enqueue, policy by policy.
use rocksqueue.Base.{
  ℕ, ◌+◌, ◌-◌, ◌^◌, ◌≤◌, ◌<◌, ◌≡◌, refl, ap, ◌∙◌, some, List, ◌++◌, map, length, arith, Result, ok,
  err, QueueError, backlog_quota_exceeded, step_ok, step_err, length-append, lt→ltb, le→ltb_false,
}
use rocksqueue.Bytes.{Bytes}
use rocksqueue.Policy.{NamespacePolicy, reject}
use rocksqueue.Rocks.Table.{Table}
use rocksqueue.Rocks.World.{World, FaultFree}
use rocksqueue.Tenant.State.{Registry, queue_lock}
use rocksqueue.Tenant.State.View.{Provisioned, pending, inflight, dlq, of_queue, depth_lem}
use rocksqueue.Tenant.Enqueue.{Times, enforce_quota, enforce, enqueue_batch_sync}
use rocksqueue.Tenant.Enqueue.Append.{
  IsFresh, new_entries, put_all-new_entries, length-new_entries, table-written, locked,
  locked-Provisioned, enqueue_run,
}

module _ {w : World} (ff : FaultFree w) (tenant queue : Bytes) where
  -- What counts against the quota.
  abbrev pub backlog : Registry w → ℕ
  backlog s =
      length (of_queue queue (pending ff tenant s)) + length (of_queue queue (inflight ff tenant s))

  module _ (policy : NamespacePolicy) (times : Times w) (quota n : ℕ) (s : Registry w)
      (has_quota : policy.backlog_quota ≡ some quota) (p : Provisioned w tenant s) where
    pub enforce_lem :
        enforce_quota w tenant queue policy n times s
        ≡ enforce w tenant queue quota n (backlog s) times policy.backlog_policy s
    unfolding enforce_quota
    enforce_lem = rw has_quota (step_ok _ (depth_lem ff tenant queue s p) refl)

    reject_over :
        policy.backlog_policy ≡ reject
        → quota < backlog s + n
        → enforce_quota w tenant queue policy n times s
          ≡ (err (backlog_quota_exceeded tenant queue (backlog s) quota n), s)
    unfolding enforce
    reject_over e h = enforce_lem ∙ rw (e, enforce, lt→ltb _ _ h) refl

    reject_fits :
        policy.backlog_policy ≡ reject
        → backlog s + n ≤ quota
        → enforce_quota w tenant queue policy n times s ≡ (ok tt, s)
    unfolding enforce
    reject_fits e h = enforce_lem ∙ rw (e, enforce, le→ltb_false _ _ h) refl

  pub enqueue_stops :
      (ps : List (Bytes × Bytes)) (policy : NamespacePolicy) (times : Times w) (s : Registry w)
      (e : QueueError) (s' : Registry w)
      → enforce_quota w tenant queue policy (length ps) times (locked w tenant queue s)
        ≡ (err e, s')
      → enqueue_batch_sync w tenant queue ps policy times s ≡ (err e, s')
  unfolding enqueue_batch_sync queue_lock
  enqueue_stops ps policy times s e s' h = step_err _ h

  -- Under the Reject policy, on a database where no call fails, a batch that does not fit beside
  -- the pending and inflight tasks of its queue is refused with the counts; nothing changes but
  -- that the queue's lock is in the map of locks.
  pub enqueue-reject_over :
      (ps : List (Bytes × Bytes)) (policy : NamespacePolicy) (times : Times w) (quota : ℕ)
      (s : Registry w)
      → Provisioned w tenant s
      → policy.backlog_quota ≡ some quota
      → policy.backlog_policy ≡ reject
      → quota < backlog s + length ps
      → enqueue_batch_sync w tenant queue ps policy times s ≡ (
        err (backlog_quota_exceeded tenant queue (backlog s) quota (length ps)),
        locked w tenant queue s,
      )
  unfolding queue_lock
  enqueue-reject_over ps policy times quota s p has is h = enqueue_stops ps policy times s _ _ (
      reject_over policy times quota (length ps) (locked w tenant queue s) has
        (locked-Provisioned w tenant queue s p) is h)

  -- What an enqueue of `ps` leaves that is admitted when the counter is `seq`, the queue `before`
  -- and the other two column families `i` and `d`: the batch is at the end of the queue, and the
  -- other two are as they were.
  pub record Enqueued (now seq : ℕ) (ps : List (Bytes × Bytes)) (before i d : Table)
      (r : Result (List Bytes) × Registry w) : Type 0 where
    pub ids : r.0 ≡ ok (map (λ p. p.0) ps)
    pub appended :
        of_queue queue (pending ff tenant r.1) ≡ before ++ new_entries ff tenant queue now seq ps
    pub inflight_kept : inflight ff tenant r.1 ≡ i
    pub dlq_kept : dlq ff tenant r.1 ≡ d

  -- An enqueue whose quota is met in the registry `s'`.
  pub admitted :
      (ps : List (Bytes × Bytes)) (policy : NamespacePolicy) (times : Times w) (s s' : Registry w)
      → enforce_quota w tenant queue policy (length ps) times (locked w tenant queue s)
        ≡ (ok tt, s')
      → Provisioned w tenant s'
      → IsFresh queue s'.seq (pending ff tenant s')
      → s'.seq + length ps < 2 ^ 64
      → Enqueued times.now s'.seq ps
          (of_queue queue (pending ff tenant s'))
          (inflight ff tenant s')
          (dlq ff tenant s')
          (enqueue_batch_sync w tenant queue ps policy times s)
  admitted ps policy times s s' h p f b =
      let t = table-written ff tenant queue times.now ps s' p in
      rw (enqueue_run ff tenant queue ps policy times s s' h p) (record {
        ids = refl;
        appended =
            ap (of_queue queue) t.0
            ∙ put_all-new_entries ff tenant queue times.now ps s'.seq (pending ff tenant s')
                (ff.table_sorted s'.db _) f b;
        inflight_kept = t.1;
        dlq_kept = t.2;
      })

  pub Enqueued-backlog :
      (now seq : ℕ) (ps : List (Bytes × Bytes)) (before i d : Table)
      (r : Result (List Bytes) × Registry w)
      → Enqueued now seq ps before i d r
      → backlog r.1 ≡ length before + length (of_queue queue i) + length ps
  Enqueued-backlog now seq ps before i d r e =
      rw (e.appended, e.inflight_kept)
        (omega (
          arith,
          length-append before (new_entries ff tenant queue now seq ps),
          length-new_entries ff tenant queue now seq ps,
        ))

  -- Under the Reject policy, on a database where no call fails, a batch that fits beside the
  -- pending and inflight tasks of its queue is appended to the queue in order, record by record,
  -- if the counter is above the queue's keys and does not wrap; the other two column families are
  -- as they were, and the backlog stays within the quota.
  pub enqueue-reject_fits :
      (ps : List (Bytes × Bytes)) (policy : NamespacePolicy) (times : Times w) (quota : ℕ)
      (s : Registry w)
      → Provisioned w tenant s
      → policy.backlog_quota ≡ some quota
      → policy.backlog_policy ≡ reject
      → backlog s + length ps ≤ quota
      → IsFresh queue s.seq (pending ff tenant s)
      → s.seq + length ps < 2 ^ 64
      → let r = enqueue_batch_sync w tenant queue ps policy times s in
        Enqueued times.now s.seq ps
          (of_queue queue (pending ff tenant s))
          (inflight ff tenant s)
          (dlq ff tenant s)
          r
        × (backlog r.1 ≤ quota)
  unfolding queue_lock
  enqueue-reject_fits ps policy times quota s p has is h f b =
      let p' = locked-Provisioned w tenant queue s p in
      let s' = locked w tenant queue s in
      let e =
        admitted ps policy times s s' (reject_fits policy times quota (length ps) s' has p' is h) p'
          f b in
      (e, omega (arith, Enqueued-backlog times.now s.seq ps _ _ _ _ e))

  -- The part of a batch that does not fit.
  abbrev pub excess : ℕ → ℕ → Registry w → ℕ
  excess quota n s = backlog s + n - quota
