-- ===== src/Grpc/Tasks.antt =====
-- grpc/control_plane.rs: enqueue, dequeue, ack and nack. A payload comes with the UUID that is
-- drawn for its task; the crate `hex` is a parameter.
pub mod Errors
pub mod Counted
pub mod Keys
use rocksqueue.Base.{
  ℕ, ◌≡◌, ◌==◌, ◌%◌, ◌^◌, Bool, true, false, Option, none, some, List, [], ◌∷◌, map, length, Result,
  ok, err, if◌then◌else◌,
}
use rocksqueue.Bytes.{Bytes}
use rocksqueue.Float.{F64}
use rocksqueue.Grpc.Handler.{
  Server, Handler, Status, not_found, invalid_argument, internal, Reply, reply, status, respond,
  fail, reads, changes, require, offload, queue_or_default, ◌>>=◌, ◌>>◌,
}
use rocksqueue.Policy.{NamespacePolicy}
use rocksqueue.Rocks.World.{World}
use rocksqueue.Stats.{record_enqueue, record_ack, record_ack_count, record_nack}
use rocksqueue.Task.{Task}
use rocksqueue.Tenant.Dequeue.{dequeue_with_max_inflight}
use rocksqueue.Tenant.Enqueue.{Times, enqueue, enqueue_batch_sync}
use rocksqueue.Tenant.Lifecycle
use rocksqueue.Tenant.Settle

abbrev pub default_dequeue_limit : ℕ
default_dequeue_limit = 500

-- `hex::encode` and `hex::decode`
pub record Hex : Type 0 where
  pub encode : Bytes → Bytes
  pub decode : Bytes → Option Bytes

-- What a decoded key is read back from.
pub record ReadsHex (h : Hex) : Type 0 where
  pub decode-encode : (key : Bytes) → h.decode (h.encode key) ≡ some key

pub record EnqueueResponse : Type 0 where
  pub queue : Bytes
  pub task_ids : List Bytes

pub record DequeuedTask : Type 0 where
  pub ack_key : Bytes
  pub task_id : Bytes
  pub queue : Bytes
  pub payload : Bytes
  pub enqueued_at : ℕ
  pub attempts : ℕ
  pub deadline : ℕ

unfoldable pub limit_or_default : ℕ → ℕ
limit_or_default limit = if limit == 0 then default_dequeue_limit else limit

unfoldable pub dequeued_task : (w : World) (hex : Hex) → Bytes × Task → DequeuedTask
dequeued_task w hex (key, task) = record {
  ack_key = hex.encode key;
  task_id = task.id;
  queue = task.queue;
  payload = w.from_utf8_lossy task.payload;
  enqueued_at = task.enqueued_at;
  attempts = task.attempts;
  deadline = task.deadline;
}

-- All keys, or the error of the first that cannot be decoded.
unfoldable pub decode_ack_keys : (hex : Hex) → List Bytes → Option (List Bytes)
decode_ack_keys hex [] = some []
decode_ack_keys hex (ack_key ∷ ack_keys) =
    let rest = decode_ack_keys hex ack_keys in
    elim (hex.decode ack_key) [
      | none ↦ none
      | some key ↦ elim rest [ none ↦ none | some keys ↦ some (key ∷ keys) ]
    ]

module _ (w : World) {f : F64} where
  -- The policy of a tenant, which must exist.
  unfoldable pub policy_of : (tenant_id : Bytes) → Handler (Server w f) NamespacePolicy
  policy_of tenant_id = do
    found ← reads (λ s. Lifecycle.get_policy w s.registry tenant_id)
    require not_found found

  -- No identifier would be a panic on the blocking pool, which is an internal error.
  unfoldable pub enqueue_task :
      (tenant_id queue id payload : Bytes) (times : Times w) → Handler (Server w f) EnqueueResponse
  enqueue_task tenant_id queue id payload times = do
    policy ← policy_of tenant_id
    first ← offload (enqueue w tenant_id (queue_or_default queue) id payload policy times)
    task_id ← require internal first
    changes (λ s. record s { collector = record_enqueue tenant_id 1 s.collector })
    respond (record { queue = queue_or_default queue; task_ids = task_id ∷ [] })

  unfoldable pub enqueue_batch :
      (tenant_id queue : Bytes) (payloads : List (Bytes × Bytes)) (times : Times w)
      → Handler (Server w f) EnqueueResponse
  enqueue_batch tenant_id queue [] times = fail invalid_argument
  enqueue_batch tenant_id queue (p ∷ payloads) times = do
    policy ← policy_of tenant_id
    task_ids ←
        offload
          (enqueue_batch_sync w tenant_id (queue_or_default queue) (p ∷ payloads) policy times)
    changes
        (λ s. record s { collector = record_enqueue tenant_id (length (p ∷ payloads)) s.collector })
    respond (record { queue = queue_or_default queue; task_ids = task_ids })

  module _ (hex : Hex) where
    -- The reply, without the tenant and the queue, which repeat the request.
    unfoldable pub dequeue_tasks :
        (tenant_id queue : Bytes) (limit : ℕ) (clock : ℕ → ℕ)
        → Handler (Server w f) (List DequeuedTask)
    dequeue_tasks tenant_id queue limit clock = do
      policy ← policy_of tenant_id
      dequeued ← offload (
          dequeue_with_max_inflight w tenant_id (queue_or_default queue) clock
            (limit_or_default limit) 60_000 policy.max_inflight)
      respond (map (dequeued_task w hex) dequeued)

    unfoldable pub decode_ack_key : Bytes → Handler (Server w f) Bytes
    decode_ack_key ack_key = require invalid_argument (hex.decode ack_key)

    unfoldable pub ack_task : (tenant_id ack_key : Bytes) → Handler (Server w f) (Unit {0})
    ack_task tenant_id ack_key = do
      key ← decode_ack_key ack_key
      acked ← offload (Settle.ack w tenant_id key)
      changes
          (λ s. if acked then record s { collector = record_ack tenant_id 0 s.collector } else s)

    -- The reply is the number of records that were acknowledged.
    unfoldable pub ack_batch : (tenant_id : Bytes) (ack_keys : List Bytes) → Handler (Server w f) ℕ
    ack_batch tenant_id [] = fail invalid_argument
    ack_batch tenant_id (k ∷ ack_keys) = do
      keys ← require invalid_argument (decode_ack_keys hex (k ∷ ack_keys))
      count ← offload (Settle.ack_batch w tenant_id keys)
      changes (λ s. record s { collector = record_ack_count tenant_id count 0 s.collector })
      respond count

    unfoldable pub nack_task :
        (tenant_id ack_key : Bytes) (now : ℕ) → Handler (Server w f) (Unit {0})
    nack_task tenant_id ack_key now = do
      key ← decode_ack_key ack_key
      offload (Settle.nack w tenant_id key now)
      changes (λ s. record s { collector = record_nack tenant_id s.collector })
