-- ===== src/Tenant/Dequeue.antt =====
-- tenant.rs: `dequeue`, `dequeue_batch`, `dequeue_with_max_inflight` and the loop they share.
-- `clock i` is the reading of the i-th call of `now_millis` in the method.
pub mod Front
pub mod Loop
pub mod Effect
pub mod Limit
use rocksqueue.Base.{
  ℕ, ◌+◌, ◌-◌, ◌%◌, ◌^◌, ◌==◌, Bool, true, false, Option, none, some, List, [], ◌∷◌, ◌++◌,
  if◌then◌else◌, ltb, leb, length, min, Result, ok, err, QueueError, and_then, Exec, pure, raise,
  reads, ◌>>=◌, ◌>>◌, suc, ◌||◌,
}
use rocksqueue.Bytes.{Bytes}
use rocksqueue.Rocks.Table.{Entry, Batch, put_cf, delete_cf}
use rocksqueue.Rocks.World.{World}
use rocksqueue.Task.{Task, poison}
use rocksqueue.Task.Keys.{queue_prefix}
use rocksqueue.Tenant.Names.{cf_pending, cf_inflight, cf_dlq}
use rocksqueue.Tenant.State.{Registry, require_cf, write_opt, queue_lock, count_prefix}

abbrev pub default_visibility_timeout_ms : ℕ
default_visibility_timeout_ms = 60_000

-- `u64::saturating_add`
unfoldable pub saturating_add : ℕ → ℕ → ℕ
saturating_add a b = min (a + b) (2 ^ 64 - 1)

-- `attempts += 1` on a `u32`, and the new deadline.
unfoldable pub deliver : ℕ → Task → Task
deliver deadline task = record task { attempts = (task.attempts + 1) % 2 ^ 32; deadline = deadline }

-- The local variables of the loop.
pub record Sweep : Type 0 where
  pub batch : Batch
  pub results : List (Bytes × Task)
  pub poisoned : ℕ

abbrev pub no_sweep : Sweep
no_sweep = record { batch = []; results = []; poisoned = 0 }

module _ (w : World) (tenant queue : Bytes) (clock : ℕ → ℕ) where
  -- A record that does not parse goes to the DLQ in an envelope.
  unfoldable pub sweep_corrupt : (key value : Bytes) → Sweep → Result Sweep
  sweep_corrupt key value acc =
      and_then (w.serialize (poison w.decimal queue value (clock (suc acc.poisoned)))) λ bytes.
        ok (record acc {
          batch =
              acc.batch
              ++ delete_cf (cf_pending tenant) key ∷ put_cf (cf_dlq tenant) key bytes ∷ [];
          poisoned = acc.poisoned + 1;
        })

  unfoldable pub sweep_task : (deadline : ℕ) (key : Bytes) (task : Task) → Sweep → Result Sweep
  sweep_task deadline key task acc = and_then (w.serialize (deliver deadline task)) λ bytes.
      ok (record acc {
        batch =
            acc.batch
            ++ delete_cf (cf_pending tenant) key ∷ put_cf (cf_inflight tenant) key bytes ∷ [];
        results = acc.results ++ (key, deliver deadline task) ∷ [];
      })

  unfoldable pub dequeue_loop : (limit deadline : ℕ) → List (Result Entry) → Sweep → Result Sweep
  dequeue_loop limit deadline [] acc = ok acc
  dequeue_loop limit deadline (err e ∷ items) acc = err e
  dequeue_loop limit deadline (ok (key, value) ∷ items) acc = elim (w.deserialize value) [
    | err e ↦ and_then (sweep_corrupt key value acc) (dequeue_loop limit deadline items)
    | ok task ↦ and_then (sweep_task deadline key task acc) λ acc'.
        let rest = dequeue_loop limit deadline items acc' in
        if leb limit (length acc'.results) then ok acc' else rest
  ]

  unfoldable pub dequeue_batch_unlocked :
      (limit visibility_timeout_ms : ℕ) → Exec (Registry w) (List (Bytes × Task))
  dequeue_batch_unlocked limit visibility_timeout_ms = if limit == 0 then pure [] else do
    require_cf w (cf_pending tenant)
    require_cf w (cf_inflight tenant)
    require_cf w (cf_dlq tenant)
    acc ← reads (λ s.
        dequeue_loop limit (saturating_add (clock 0) visibility_timeout_ms)
          (w.scan_prefix s.db (cf_pending tenant) (queue_prefix queue)) no_sweep)
    if ltb 0 (length acc.results) || ltb 0 acc.poisoned
        then (do write_opt w acc.batch; pure acc.results)
        else pure acc.results

  unfoldable pub dequeue_batch :
      (limit visibility_timeout_ms : ℕ) → Exec (Registry w) (List (Bytes × Task))
  dequeue_batch limit visibility_timeout_ms = do
    queue_lock w tenant queue
    dequeue_batch_unlocked limit visibility_timeout_ms

  unfoldable pub dequeue : (limit : ℕ) → Exec (Registry w) (List (Bytes × Task))
  dequeue limit = dequeue_batch limit default_visibility_timeout_ms

  unfoldable pub dequeue_with_max_inflight :
      (limit visibility_timeout_ms max_inflight : ℕ) → Exec (Registry w) (List (Bytes × Task))
  dequeue_with_max_inflight limit visibility_timeout_ms max_inflight =
      if max_inflight == 0 then pure [] else do
        queue_lock w tenant queue
        require_cf w (cf_inflight tenant)
        inflight ← count_prefix w (cf_inflight tenant) queue
        if leb max_inflight inflight
            then pure []
            else dequeue_batch_unlocked (min limit (max_inflight - inflight)) visibility_timeout_ms
