-- ===== src/Tenant/Dlq.antt =====
-- tenant.rs: `purge_dlq` and `replay_dlq`, over a tenant's whole dead-letter column family.
pub mod Purge
pub mod Loop
pub mod Replay
use rocksqueue.Base.{
  ℕ, ◌+◌, Bool, true, false, List, [], ◌∷◌, ◌++◌, if◌then◌else◌, ltb, Result, ok, err, QueueError,
  Exec, pure, raise, reads, ◌>>=◌, ◌>>◌,
}
use rocksqueue.Bytes.{Bytes}
use rocksqueue.Rocks.Table.{Entry, Batch, put_cf, delete_cf}
use rocksqueue.Rocks.World.{World}
use rocksqueue.Task.{Task}
use rocksqueue.Task.Keys.{encode_key}
use rocksqueue.Tenant.Names.{cf_pending, cf_dlq}
use rocksqueue.Tenant.State.{Registry, require_cf, write_opt, next_seq}

module _ (w : World) where
  unfoldable pub purge_loop : (cf : Bytes) → List (Result Entry) → Batch → ℕ → Result (Batch × ℕ)
  purge_loop cf [] batch count = ok (batch, count)
  purge_loop cf (err e ∷ items) batch count = err e
  purge_loop cf (ok (key, value) ∷ items) batch count =
      purge_loop cf items (batch ++ delete_cf cf key ∷ []) (count + 1)

  unfoldable pub purge_dlq : (tenant : Bytes) → Exec (Registry w) ℕ
  purge_dlq tenant = do
    require_cf w (cf_dlq tenant)
    (batch, count) ← reads (λ s. purge_loop (cf_dlq tenant) (w.scan_all s.db (cf_dlq tenant)) [] 0)
    if ltb 0 count then (do write_opt w batch; pure count) else pure count

  unfoldable pub replay_loop :
      (tenant : Bytes) → List (Result Entry) → Batch → ℕ → Exec (Registry w) (Batch × ℕ)
  replay_loop tenant [] batch count = pure (batch, count)
  replay_loop tenant (err e ∷ items) batch count = raise e
  replay_loop tenant (ok (key, value) ∷ items) batch count = do
    task ← reads (λ _. w.deserialize value)
    seq ← next_seq w
    bytes ← reads (λ _. w.serialize (record task { attempts = 0; deadline = 0 }))
    replay_loop tenant items
        (batch
          ++ put_cf (cf_pending tenant) (encode_key task.queue seq) bytes
            ∷ delete_cf (cf_dlq tenant) key
            ∷ [])
        (count + 1)

  unfoldable pub replay_dlq : (tenant : Bytes) → Exec (Registry w) ℕ
  replay_dlq tenant = do
    require_cf w (cf_pending tenant)
    require_cf w (cf_dlq tenant)
    items ← reads (λ s. ok (w.scan_all s.db (cf_dlq tenant)))
    (batch, count) ← replay_loop tenant items [] 0
    if ltb 0 count then (do write_opt w batch; pure count) else pure count
