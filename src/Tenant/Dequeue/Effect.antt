-- ===== src/Tenant/Dequeue/Effect.antt =====
-- What a dequeue returns and what it moves, on a database where no call fails.
use rocksqueue.Base.{
  ℕ, zero, suc, ◌+◌, ◌<◌, ◌≡◌, refl, ap, ◌∙◌, false, [], ◌∷◌, length, take, drop, arith, ok, ltb,
  ◌==◌, Result-cases, inl, inr, step_ok, ◌||◌,
}
use rocksqueue.Bytes.{Bytes}
use rocksqueue.Bytes.Order.{beq_refl}
use rocksqueue.Rocks.Table.{Table, apply, delete, delete_all, put_all, keys}
use rocksqueue.Rocks.Table.Prefix.{delete_all-keys-take, prefixed-delete_all, prefixed-IsSorted}
use rocksqueue.Rocks.World.{World, FaultFree, Known}
use rocksqueue.Task.Keys.{queue_prefix}
use rocksqueue.Tenant.Names.{cf_pending, cf_inflight, cf_dlq}
use rocksqueue.Tenant.Names.Distinct.{
  pending_inflight, pending_dlq, inflight_pending, inflight_dlq, dlq_pending, dlq_inflight,
}
use rocksqueue.Tenant.State.{Registry}
use rocksqueue.Tenant.State.View.{
  Provisioned, pending, inflight, dlq, of_queue, require_cf_ok, commit, nonempty, commit_if,
  table-commit,
}
use rocksqueue.Tenant.Dequeue.{no_sweep, saturating_add, dequeue_loop, dequeue_batch_unlocked}
use rocksqueue.Tenant.Dequeue.Front.{consumed, consumed-zero, consumed-take, delivered, corrupt}
use rocksqueue.Tenant.Dequeue.Loop.{to_inflight, to_dlq, moves, swept, dequeue_loop_lem}

module _ {w : World} (ff : FaultFree w) (tenant queue : Bytes) (clock : ℕ → ℕ) where
  module _ (deadline : ℕ) where
    apply_pending :
        (i : ℕ) (t u : Table)
        → apply (cf_pending tenant) (moves ff tenant queue clock deadline i t) u
          ≡ delete_all (keys t) u
    unfolding apply moves delete_all
    apply_pending i [] u = refl
    apply_pending i ((k, v) ∷ t) u = elim (Result-cases (w.deserialize v)) [
      | inl (task, e) ↦ rw (e, moves, beq_refl, inflight_pending) (apply_pending i t (delete k u))
      | inr (q, e) ↦ rw (e, moves, beq_refl, dlq_pending) (apply_pending (suc i) t (delete k u))
    ]

    apply_inflight :
        (i : ℕ) (t u : Table)
        → apply (cf_inflight tenant) (moves ff tenant queue clock deadline i t) u
          ≡ put_all (to_inflight ff tenant queue clock deadline t) u
    unfolding apply moves put_all to_inflight
    apply_inflight i [] u = refl
    apply_inflight i ((k, v) ∷ t) u = elim (Result-cases (w.deserialize v)) [
      | inl (task, e) ↦
          rw (e, moves, to_inflight, beq_refl, pending_inflight) (apply_inflight i t _)
      | inr (q, e) ↦
          rw (e, moves, to_inflight, pending_inflight, dlq_inflight) (apply_inflight (suc i) t u)
    ]

    apply_dlq :
        (i : ℕ) (t u : Table)
        → apply (cf_dlq tenant) (moves ff tenant queue clock deadline i t) u
          ≡ put_all (to_dlq ff tenant queue clock i t) u
    unfolding apply moves put_all to_dlq
    apply_dlq i [] u = refl
    apply_dlq i ((k, v) ∷ t) u = elim (Result-cases (w.deserialize v)) [
      | inl (task, e) ↦ rw (e, moves, to_dlq, pending_dlq, inflight_dlq) (apply_dlq i t u)
      | inr (q, e) ↦ rw (e, moves, to_dlq, beq_refl, pending_dlq) (apply_dlq (suc i) t _)
    ]

    moves-Known :
        (s : Registry w) (i : ℕ) (t : Table)
        → Provisioned w tenant s
        → Known (w.has_cf s.db) (moves ff tenant queue clock deadline i t)
    unfolding moves
    moves-Known s i [] p = tt
    moves-Known s i ((k, v) ∷ t) p = elim (Result-cases (w.deserialize v)) [
      | inl (task, e) ↦ rw (e, moves) (p.has_pending, (p.has_inflight, moves-Known s i t p))
      | inr (q, e) ↦ rw (e, moves) (p.has_pending, (p.has_dlq, moves-Known s (suc i) t p))
    ]

  nonzero : (n : ℕ) → (suc n == 0) ≡ false
  nonzero n = ground arith

  wrote :
      (deadline i : ℕ) (t : Table)
      → (ltb 0 (length (delivered w deadline t)) || ltb 0 (0 + length (corrupt w t)))
        ≡ nonempty ff (moves ff tenant queue clock deadline i t)
  unfolding delivered corrupt moves
  wrote deadline i [] = refl
  wrote deadline i ((k, v) ∷ t) = elim (Result-cases (w.deserialize v)) [
    | inl (task, e) ↦ rw (e, delivered, corrupt, moves) (ground arith)
    | inr (q, e) ↦ rw (e, delivered, corrupt, moves) (ground arith)
  ]

  -- What a sweep takes, and the registry that it leaves.
  abbrev pub front : ℕ → Registry w → Table
  front limit s = consumed w limit (of_queue queue (pending ff tenant s))

  dequeue_run :
      (limit visibility_timeout_ms : ℕ) (s : Registry w)
      → 0 < limit
      → Provisioned w tenant s
      → let deadline = saturating_add (clock 0) visibility_timeout_ms in
        dequeue_batch_unlocked w tenant queue clock limit visibility_timeout_ms s ≡ (
          ok (delivered w deadline (front limit s)),
          commit ff (moves ff tenant queue clock deadline 0 (front limit s)) s,
        )
  unfolding dequeue_batch_unlocked
  dequeue_run zero vt s h p = absurd (omega arith)
  dequeue_run (suc n) vt s h p = rw (nonzero n) (
      step_ok _ (require_cf_ok ff (cf_pending tenant) s p.has_pending) (
        step_ok _ (require_cf_ok ff (cf_inflight tenant) s p.has_inflight) (
          step_ok _ (require_cf_ok ff (cf_dlq tenant) s p.has_dlq) (
            step_ok _ (λ i. (loop i, s))
              (unfold swept in
                commit_if ff _ _ _ s (moves-Known _ s 0 _ p)
                  (wrote deadline 0 (front (suc n) s)))))))
    where
      deadline : ℕ
      deadline = saturating_add (clock 0) vt

      loop :
          dequeue_loop w tenant queue clock
            (suc n)
            deadline
            (w.scan_prefix s.db (cf_pending tenant) (queue_prefix queue))
            no_sweep
          ≡ ok (swept ff tenant queue clock deadline no_sweep (front (suc n) s))
      loop =
          rw (ff.scan_prefix_lem s.db (cf_pending tenant) (queue_prefix queue) p.has_pending)
            (dequeue_loop_lem ff tenant queue clock (suc n) deadline n _ no_sweep (omega arith))

  pub dequeue_total :
      (limit visibility_timeout_ms : ℕ) (s : Registry w)
      → Provisioned w tenant s
      → let deadline = saturating_add (clock 0) visibility_timeout_ms in
        dequeue_batch_unlocked w tenant queue clock limit visibility_timeout_ms s ≡ (
          ok (delivered w deadline (front limit s)),
          commit ff (moves ff tenant queue clock deadline 0 (front limit s)) s,
        )
  dequeue_total zero vt s p =
      unfold dequeue_batch_unlocked in
      (rw (consumed-zero w (of_queue queue (pending ff tenant s))) (unfold delivered moves in refl))
  dequeue_total (suc n) vt s p = dequeue_run (suc n) vt s (omega arith) p

  -- On a database where no call fails, a dequeue of at most `limit` tasks from a tenant that
  -- exists returns the first tasks of the queue that parse, in key order, each with one more
  -- attempt and the deadline, and takes the front of the queue up to the last of them: what it
  -- takes is no longer pending, each task is inflight under its key, and each record that does
  -- not parse is in the DLQ under its key, in an envelope.
  pub dequeue_batch_unlocked_lem :
      (limit visibility_timeout_ms : ℕ) (s : Registry w)
      → Provisioned w tenant s
      → let deadline = saturating_add (clock 0) visibility_timeout_ms in
        let c = front limit s in
        let r = dequeue_batch_unlocked w tenant queue clock limit visibility_timeout_ms s in
        (r.0 ≡ ok (delivered w deadline c))
        × (c ≡ take (length c) (of_queue queue (pending ff tenant s)))
        × (of_queue queue (pending ff tenant r.1)
            ≡ drop (length c) (of_queue queue (pending ff tenant s)))
        × (pending ff tenant r.1 ≡ delete_all (keys c) (pending ff tenant s))
        × (inflight ff tenant r.1
            ≡ put_all (to_inflight ff tenant queue clock deadline c) (inflight ff tenant s))
        × (dlq ff tenant r.1 ≡ put_all (to_dlq ff tenant queue clock 0 c) (dlq ff tenant s))
  dequeue_batch_unlocked_lem limit vt s p =
      let deadline = saturating_add (clock 0) vt in
      let c = front limit s in
      let m = moves ff tenant queue clock deadline 0 c in
      let k = moves-Known deadline s 0 c p in
      let q = of_queue queue (pending ff tenant s) in
      let front_take = consumed-take w limit q in
      let gone : pending ff tenant (commit ff m s) ≡ delete_all (keys c) (pending ff tenant s) =
        table-commit ff m s (cf_pending tenant) k ∙ apply_pending deadline 0 c _ in
      let sorted =
        prefixed-IsSorted (queue_prefix queue) (pending ff tenant s) (ff.table_sorted s.db _) in
      let dropped : delete_all (keys c) q ≡ drop (length c) q =
        ap (λ t. delete_all (keys t) q) front_take ∙ delete_all-keys-take (length c) q sorted in
      rw (dequeue_total limit vt s p) (
        refl,
        front_take,
        ap (of_queue queue) gone ∙ prefixed-delete_all (queue_prefix queue) (keys c) _ ∙ dropped,
        gone,
        table-commit ff m s (cf_inflight tenant) k ∙ apply_inflight deadline 0 c _,
        table-commit ff m s (cf_dlq tenant) k ∙ apply_dlq deadline 0 c _,
      )
