-- ===== src/Examples.antt =====
-- A small registry over the database in memory, and the theorems applied to it.
mod Queues
mod Rows
mod Throttled
mod Served
mod Histories
mod Keys
mod Settled
mod Workers
use rocksqueue.Base.{ℕ, ◌≡◌, refl, Bool, true, some, List, [], ◌∷◌}
use rocksqueue.Bytes.{Bytes, beq}
use rocksqueue.Policy.{NamespacePolicy, BacklogPolicy, RetentionPolicy, standard}
use rocksqueue.Rocks.Table.{put_cf}
use rocksqueue.Task.{Task}
use rocksqueue.Task.Keys.{encode_key}
use rocksqueue.Tenant.Names.{cf_pending, cf_inflight, cf_dlq, cf_system}
use rocksqueue.Tenant.State.{Registry}
use rocksqueue.Tenant.State.View.{Provisioned}
use rocksqueue.Memory.{Memory, memory, has_name, encode_task}

-- "a" and "q"
abbrev pub tenant : Bytes
tenant = b'a' ∷ []

abbrev pub queue : Bytes
queue = b'q' ∷ []

abbrev pub task : ℕ → ℕ → Task
task attempts deadline = record {
  id = b'x' ∷ [];
  queue = queue;
  payload = 7 ∷ 8 ∷ [];
  enqueued_at = 100;
  attempts = attempts;
  deadline = deadline;
}

abbrev pub names : List Bytes
names = cf_pending tenant ∷ cf_inflight tenant ∷ cf_dlq tenant ∷ cf_system ∷ []

-- Pending: a task, a record that does not parse, and a task. Inflight: one task, long overdue,
-- and one at its last attempt. One dead letter.
abbrev pub database : Memory
database = record {
  names = names;
  log =
      put_cf (cf_pending tenant) (encode_key queue 3) (encode_task (task 0 0))
      ∷ put_cf (cf_pending tenant) (encode_key queue 4) (1 ∷ 2 ∷ [])
      ∷ put_cf (cf_pending tenant) (encode_key queue 5) (encode_task (task 2 0))
      ∷ put_cf (cf_inflight tenant) (encode_key queue 1) (encode_task (task 1 200))
      ∷ put_cf (cf_inflight tenant) (encode_key queue 2) (encode_task (task 5 9000))
      ∷ put_cf (cf_dlq tenant) (encode_key queue 0) (encode_task (task 5 300))
      ∷ [];
}

abbrev pub registry : Registry memory
registry = record { db = database; seq = 6; policies = []; queue_locks = []; ack_locks = [] }

pub registry-Provisioned : Provisioned memory tenant registry
unfolding has_name cf_pending cf_inflight cf_dlq beq
registry-Provisioned = record { has_pending = refl; has_inflight = refl; has_dlq = refl }

abbrev pub small_quota : ℕ → BacklogPolicy → NamespacePolicy
small_quota quota policy = record (standard tenant) {
  backlog_quota = some quota;
  backlog_policy = policy;
}

-- The clock reads 1000 at every call.
abbrev pub clock : ℕ → ℕ
clock i = 1000
