-- ===== src/Reaper.antt =====
-- reaper.rs: `reap_inflight`, one sweep over the inflight records of a queue. `clock i` is the
-- reading of the i-th call of `now_millis`.
pub mod Loop
pub mod Effect
use rocksqueue.Base.{
  ℕ, ◌+◌, Bool, true, false, List, [], ◌∷◌, ◌++◌, if◌then◌else◌, ltb, suc, ◌&&◌, ◌||◌, Result, ok,
  err, and_then, Exec, pure, reads, ◌>>=◌, ◌>>◌,
}
use rocksqueue.Bytes.{Bytes, starts_with}
use rocksqueue.Rocks.Table.{Entry, Batch, put_cf, delete_cf}
use rocksqueue.Rocks.World.{World}
use rocksqueue.Task.{Task, poison}
use rocksqueue.Task.Keys.{queue_prefix}
use rocksqueue.Tenant.Names.{cf_pending, cf_inflight, cf_dlq}
use rocksqueue.Tenant.State.{Registry, require_cf, write_opt}

-- The local variables of the loop.
pub record Reaped : Type 0 where
  pub batch : Batch
  pub reclaimed : ℕ
  pub poisoned : ℕ

abbrev pub no_reaped : Reaped
no_reaped = record { batch = []; reclaimed = 0; poisoned = 0 }

-- `task.deadline > 0 && task.deadline < now`
unfoldable pub is_expired : ℕ → Task → Bool
is_expired now task = ltb 0 task.deadline && ltb task.deadline now

module _ (w : World) (tenant queue : Bytes) (clock : ℕ → ℕ) where
  unfoldable pub reap_corrupt : (key value : Bytes) → Reaped → Result Reaped
  reap_corrupt key value acc =
      and_then (w.serialize (poison w.decimal queue value (clock (suc acc.poisoned)))) λ bytes.
        ok (record acc {
          batch =
              acc.batch
              ++ delete_cf (cf_inflight tenant) key ∷ put_cf (cf_dlq tenant) key bytes ∷ [];
          poisoned = acc.poisoned + 1;
        })

  unfoldable pub reap_task : (key : Bytes) (task : Task) → Reaped → Result Reaped
  reap_task key task acc =
      if is_expired (clock 0) task
      then and_then (w.serialize (record task { deadline = 0 })) (λ bytes. ok (record acc {
        batch =
            acc.batch
            ++ delete_cf (cf_inflight tenant) key ∷ put_cf (cf_pending tenant) key bytes ∷ [];
        reclaimed = acc.reclaimed + 1;
      }))
      else ok acc

  unfoldable pub reap_loop : List (Result Entry) → Reaped → Result Reaped
  reap_loop [] acc = ok acc
  reap_loop (err e ∷ items) acc = err e
  reap_loop (ok (key, value) ∷ items) acc =
      let step : Result Reaped = elim (w.deserialize value) [
        | err e ↦ reap_corrupt key value acc
        | ok task ↦ reap_task key task acc
      ] in
      let rest = and_then step (reap_loop items) in
      if starts_with (queue_prefix queue) key then rest else ok acc

  -- No lock is taken: the scan and the write are one step only where no other call runs between them.
  unfoldable pub reap_inflight : Exec (Registry w) (Unit {0})
  reap_inflight = do
    require_cf w (cf_inflight tenant)
    require_cf w (cf_pending tenant)
    require_cf w (cf_dlq tenant)
    acc ←
        reads
          (λ s. reap_loop (w.scan_from s.db (cf_inflight tenant) (queue_prefix queue)) no_reaped)
    if ltb 0 acc.reclaimed || ltb 0 acc.poisoned then write_opt w acc.batch else pure tt

-- One round of the reaper's task over the tenants: an error is logged and the round goes on. The
-- registry comes with the number of sweeps so far, and `clocks n` is the clock of the n-th.
module _ (w : World) (clocks : ℕ → ℕ → ℕ) where
  unfoldable pub reap_queues : (tenant : Bytes) → List Bytes → ℕ × Registry w → ℕ × Registry w
  reap_queues tenant [] st = st
  reap_queues tenant (queue ∷ queues) (n, s) =
      reap_queues tenant queues (suc n, (reap_inflight w tenant queue (clocks n) s).1)

  unfoldable pub reap_round : List Bytes → List Bytes → ℕ × Registry w → ℕ × Registry w
  reap_round [] queues st = st
  reap_round (tenant ∷ tenants) queues st = reap_round tenants queues (reap_queues tenant queues st)
