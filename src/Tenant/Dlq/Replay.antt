-- ===== src/Tenant/Dlq/Replay.antt =====
-- Replaying the DLQ: every dead letter becomes a fresh pending task, or nothing is moved.
use rocksqueue.Base.{
  ◌≤◌, Exec, if◌then◌else◌, ◌>>◌, ◌>>=◌, ℕ, ◌+◌, ◌≡◌, refl, ap, ◌∙◌, List, [], length, arith,
  Result, ok, err, QueueError, step_ok, step_err, ltb, pure,
}
use rocksqueue.Bytes.{Bytes}
use rocksqueue.Rocks.Table.{Entry, Batch, put_all, delete_all}
use rocksqueue.Rocks.World.{World, FaultFree}
use rocksqueue.Task.{Task}
use rocksqueue.Tenant.Names.{cf_pending, cf_inflight, cf_dlq}
use rocksqueue.Tenant.State.{Registry, write_opt}
use rocksqueue.Tenant.State.View.{
  Provisioned, pending, inflight, dlq, require_cf_ok, commit, commit_if, table-commit, commit-seq,
}
use rocksqueue.Tenant.Enqueue.Append.{advance}
use rocksqueue.Tenant.Dlq.{replay_loop, replay_dlq}
use rocksqueue.Tenant.Dlq.Purge.{delete_all-keys}
use rocksqueue.Tenant.Dlq.Loop.{
  decode_all, replayed, replay_moves, after_replay, replay_loop_ok, replay_loop_err, apply-dlq,
  apply-pending, apply-inflight, replay_moves-Known, wrote, decode_all-keys,
}

module _ {w : World} (ff : FaultFree w) (tenant : Bytes) where
  -- The end of a replay.
  abbrev finish : Batch × ℕ → Exec (Registry w) ℕ
  finish x = if ltb 0 x.1 then (do write_opt w x.0; pure x.1) else pure x.1

  abbrev all_of : List (Result Entry) → Exec (Registry w) ℕ
  all_of items = replay_loop w tenant items [] 0 >>= finish

  pub replay_run :
      (tasks : List (Bytes × Task)) (s : Registry w)
      → Provisioned w tenant s
      → decode_all w (dlq ff tenant s) ≡ ok tasks
      → replay_dlq w tenant s ≡ (
        ok (0 + length tasks),
        commit ff (replay_moves ff tenant s.seq tasks) (after_replay ff tenant (length tasks) s),
      )
  unfolding replay_dlq after_replay
  replay_run tasks s p d =
      let s' = after_replay ff tenant (length tasks) s in
      let m = replay_moves ff tenant s.seq tasks in
      let k = replay_moves-Known ff tenant (w.has_cf s.db) s.seq tasks p.has_pending p.has_dlq in
      step_ok _ (require_cf_ok ff (cf_pending tenant) s p.has_pending) (
        step_ok _ (require_cf_ok ff (cf_dlq tenant) s p.has_dlq) (
          step_ok all_of (λ i. (ok (ff.scan_all_lem s.db (cf_dlq tenant) p.has_dlq i), s))
            (step_ok finish (replay_loop_ok ff tenant (dlq ff tenant s) tasks [] 0 s d) (
              commit_if ff (ltb 0 (0 + length tasks)) m (0 + length tasks) s' k
                (wrote ff tenant s.seq tasks)))))

  pub replay_fail_run :
      (e : QueueError) (s : Registry w)
      → Provisioned w tenant s
      → decode_all w (dlq ff tenant s) ≡ err e
      → (n : ℕ) × (n ≤ length (dlq ff tenant s))
        × (replay_dlq w tenant s ≡ (err e, after_replay ff tenant n s))
  unfolding replay_dlq
  replay_fail_run e s p d =
      let r = replay_loop_err ff tenant (dlq ff tenant s) e [] 0 s d in
      (
        r.0,
        r.1,
        step_ok _ (require_cf_ok ff (cf_pending tenant) s p.has_pending) (
            step_ok _ (require_cf_ok ff (cf_dlq tenant) s p.has_dlq) (
              step_ok all_of (λ i. (ok (ff.scan_all_lem s.db (cf_dlq tenant) p.has_dlq i), s))
                (step_err finish r.2))),
      )

  -- On a database where no call fails, a replay of a DLQ whose records all parse succeeds with
  -- their number: the DLQ is empty, every task is pending in its own queue, at the next sequence
  -- numbers in the order of the DLQ, with no attempts and no deadline, and inflight is as it was.
  pub replay_dlq_lem :
      (tasks : List (Bytes × Task)) (s : Registry w)
      → Provisioned w tenant s
      → decode_all w (dlq ff tenant s) ≡ ok tasks
      → let r = replay_dlq w tenant s in
        (r.0 ≡ ok (length tasks))
        × (dlq ff tenant r.1 ≡ [])
        × (pending ff tenant r.1 ≡ put_all (replayed ff tenant s.seq tasks) (pending ff tenant s))
        × (inflight ff tenant r.1 ≡ inflight ff tenant s)
        × (r.1.seq ≡ advance (length tasks) s.seq)
  unfolding after_replay
  replay_dlq_lem tasks s p d =
      let m = replay_moves ff tenant s.seq tasks in
      let s' = after_replay ff tenant (length tasks) s in
      let k = replay_moves-Known ff tenant (w.has_cf s.db) s.seq tasks p.has_pending p.has_dlq in
      let sum : 0 + length tasks ≡ length tasks = omega arith in
      rw (replay_run tasks s p d) (
        ap ok sum,
        table-commit ff m s' (cf_dlq tenant) k
            ∙ apply-dlq ff tenant s.seq tasks _
            ∙ ap (λ ks. delete_all ks (dlq ff tenant s)) (decode_all-keys ff tenant _ tasks d)
            ∙ delete_all-keys _ (ff.table_sorted s.db _),
        table-commit ff m s' (cf_pending tenant) k ∙ apply-pending ff tenant s.seq tasks _,
        table-commit ff m s' (cf_inflight tenant) k ∙ apply-inflight ff tenant s.seq tasks _,
        commit-seq ff m s',
      )

  -- On a database where no call fails, a replay that meets a record that does not parse ends
  -- with that error and moves nothing.
  pub replay_dlq-fails :
      (e : QueueError) (s : Registry w)
      → Provisioned w tenant s
      → decode_all w (dlq ff tenant s) ≡ err e
      → ((replay_dlq w tenant s).0 ≡ err e) × ((replay_dlq w tenant s).1.db ≡ s.db)
  unfolding after_replay
  replay_dlq-fails e s p d = rw (replay_fail_run e s p d).2 (refl, refl)
