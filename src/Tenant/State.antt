-- ===== src/Tenant/State.antt =====
-- tenant.rs: the state of `TenantRegistry` and the steps that its methods share. The state is the
-- database, the sequence counter, the policies, and the names of the locks that exist; a method
-- is one step, which is what its lock is for.
pub mod View
pub mod Deletions
use rocksqueue.Base.{
  ℕ, ◌+◌, ◌%◌, ◌^◌, Bool, true, false, Option, none, some, List, [], ◌∷◌, ◌++◌, if◌then◌else◌,
  Result, ok, err, QueueError, column_family_missing, Exec, pure, raise, reads, modify, ◌>>=◌, ◌>>◌,
  ◌||◌,
}
use rocksqueue.Bytes.{Bytes, beq, starts_with}
use rocksqueue.Policy.{NamespacePolicy}
use rocksqueue.Rocks.Table.{Entry, Batch}
use rocksqueue.Rocks.World.{World}
use rocksqueue.Task.Keys.{queue_prefix}
use rocksqueue.Tenant.Names.{cf_pending, cf_inflight, cf_dlq, lock_name}

abbrev pub Policies : Type 0
Policies = List (Bytes × NamespacePolicy)

pub record Registry (w : World) : Type 0 where
  pub db : w.Db
  pub seq : ℕ
  -- the order of the entries stands for the order in which the map iterates
  pub policies : Policies
  pub queue_locks : List Bytes
  pub ack_locks : List Bytes

-- `entry(name).or_insert_with(..)`: the lock exists afterwards.
unfoldable pub ensure : Bytes → List Bytes → List Bytes
ensure k [] = k ∷ []
ensure k (j ∷ js) = if beq j k then j ∷ js else j ∷ ensure k js

module _ (w : World) where
  -- `cf_handle(name).ok_or_else(..)?`
  unfoldable pub require_cf : Bytes → Exec (Registry w) (Unit {0})
  require_cf name s =
      if w.has_cf s.db name then (ok tt, s) else (err (column_family_missing name), s)

  -- `self.db.write_opt(batch, ..)?`
  unfoldable pub write_opt : Batch → Exec (Registry w) (Unit {0})
  write_opt batch s = ((w.write batch s.db).0, record s { db = (w.write batch s.db).1 })

  -- `fetch_add(1)` on an `AtomicU64`
  unfoldable pub next_seq : Exec (Registry w) ℕ
  next_seq s = (ok s.seq, record s { seq = (s.seq + 1) % 2 ^ 64 })

  unfoldable pub queue_lock : Bytes → Bytes → Exec (Registry w) (Unit {0})
  queue_lock tenant queue s =
      (ok tt, record s { queue_locks = ensure (lock_name tenant queue) s.queue_locks })

  unfoldable pub ack_lock : Bytes → Bytes → Exec (Registry w) (Unit {0})
  ack_lock tenant queue s =
      (ok tt, record s { ack_locks = ensure (lock_name tenant queue) s.ack_locks })

  -- The loop of `count_prefix`.
  unfoldable pub count_loop : List (Result Entry) → ℕ → Result ℕ
  count_loop [] count = ok count
  count_loop (err e ∷ items) count = err e
  count_loop (ok entry ∷ items) count = count_loop items (count + 1)

  unfoldable pub count_prefix : (cf queue : Bytes) → Exec (Registry w) ℕ
  count_prefix cf queue s = (count_loop (w.scan_prefix s.db cf (queue_prefix queue)) 0, s)

  unfoldable pub depth : (tenant queue : Bytes) → Exec (Registry w) (ℕ × ℕ × ℕ)
  depth tenant queue = do
    require_cf (cf_pending tenant)
    pending ← count_prefix (cf_pending tenant) queue
    require_cf (cf_inflight tenant)
    inflight ← count_prefix (cf_inflight tenant) queue
    require_cf (cf_dlq tenant)
    dlq ← count_prefix (cf_dlq tenant) queue
    pure (pending, inflight, dlq)
