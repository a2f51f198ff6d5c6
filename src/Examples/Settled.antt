-- ===== src/Examples/Settled.antt =====
-- The theorems on acknowledged, returned, reaped and dead tasks, on the small registry.
use rocksqueue.Base.{false, refl, arith, err, serialization, none, ◌≡◌, true, List, [], ◌∷◌, ok}
use rocksqueue.Bytes.{Bytes}
use rocksqueue.Rocks.Table.{lookup, put_cf}
use rocksqueue.Task.Keys.{encode_key}
use rocksqueue.Tenant.State.View.{Provisioned, pending, inflight, of_queue}
use rocksqueue.Tenant.Settle.{elem, ack, ack_batch, nack, cumulative_ack}
use rocksqueue.Tenant.Settle.Acks.{ack_batch_lem}
use rocksqueue.Tenant.Names.{lock_name}
use rocksqueue.Tenant.Settle.Locks.{IsIncreasing, ack_batch-IsIncreasing}
use rocksqueue.Tenant.Settle.Single.{ack_lem}
use rocksqueue.Tenant.Settle.Nacks.{Nacked, nack_lem}
use rocksqueue.Tenant.Dlq.{purge_dlq, replay_dlq}
use rocksqueue.Tenant.Dlq.Loop.{decode_all}
use rocksqueue.Tenant.Dlq.Replay.{replay_dlq_lem, replay_dlq-fails}
use rocksqueue.Tenant.Settle.Cumulative.{cumulative_ack_lem}
use rocksqueue.Tenant.Names.{cf_pending, cf_inflight, cf_dlq}
use rocksqueue.Tenant.State.{Registry}
use rocksqueue.Bytes.{beq}
use rocksqueue.Tenant.Dlq.Purge.{purge_dlq_lem}
use rocksqueue.Reaper.{reap_inflight, is_expired}
use rocksqueue.Reaper.Loop.{left}
use rocksqueue.Reaper.Effect.{reap_inflight_lem}
use rocksqueue.Memory.{memory, fault_free, has_name, encode_task, decode_task, text}
use rocksqueue.Examples.{tenant, queue, task, database, registry, registry-Provisioned, clock}
use rocksqueue.Examples.Queues.{run_queues}

-- A key that is inflight, twice, and one that is not.
abbrev acked_keys : List Bytes
acked_keys = encode_key queue 1 ∷ encode_key queue 9 ∷ encode_key queue 1 ∷ []

ack_batch_lem_example :
    pending fault_free tenant (ack_batch memory tenant acked_keys registry).1
    ≡ pending fault_free tenant registry
ack_batch_lem_example = (ack_batch_lem fault_free tenant acked_keys registry registry-Provisioned).4

ack_lem_example : (ack memory tenant (encode_key queue 2) registry).0 ≡ ok true
unfolding run_queues lookup
ack_lem_example = (ack_lem fault_free tenant (encode_key queue 2) registry registry-Provisioned).0

nack_lem_example :
    Nacked fault_free tenant
      (encode_key queue 1)
      1000
      registry
      (nack memory tenant (encode_key queue 1) 1000 registry)
nack_lem_example =
    nack_lem fault_free tenant (encode_key queue 1) 1000 registry registry-Provisioned

reap_inflight_lem_example :
    of_queue queue (inflight fault_free tenant (reap_inflight memory tenant queue clock registry).1)
    ≡ (encode_key queue 2, encode_task (task 5 9000)) ∷ []
unfolding run_queues left is_expired encode_task decode_task text
reap_inflight_lem_example =
    (reap_inflight_lem fault_free tenant queue clock registry registry-Provisioned).1

purge_dlq_lem_example : (purge_dlq memory tenant registry).0 ≡ ok 1
unfolding run_queues
purge_dlq_lem_example = (purge_dlq_lem fault_free tenant registry registry-Provisioned).0

replay_dlq_lem_example : (replay_dlq memory tenant registry).0 ≡ ok 1
unfolding run_queues decode_all encode_task decode_task text
replay_dlq_lem_example =
    (replay_dlq_lem fault_free tenant ((encode_key queue 0, task 5 300) ∷ []) registry
      registry-Provisioned refl).0

-- The small registry with a dead letter that does not parse.
abbrev spoiled : Registry memory
spoiled = record registry {
  db = record database {
    log = put_cf (cf_dlq tenant) (encode_key queue 8) (9 ∷ []) ∷ database.log;
  };
}

spoiled-Provisioned : Provisioned memory tenant spoiled
unfolding has_name cf_pending cf_inflight cf_dlq beq
spoiled-Provisioned = record { has_pending = refl; has_inflight = refl; has_dlq = refl }

replay_dlq-fails_example : (replay_dlq memory tenant spoiled).0 ≡ err (serialization 0)
unfolding run_queues decode_all encode_task decode_task text
replay_dlq-fails_example =
    (replay_dlq-fails fault_free tenant (serialization 0) spoiled spoiled-Provisioned refl).0

cumulative_ack_lem_example :
    lookup
      (encode_key queue 1)
      (inflight fault_free tenant (cumulative_ack memory tenant queue 1 registry).1)
    ≡ none
unfolding run_queues
cumulative_ack_lem_example =
    (cumulative_ack_lem fault_free tenant queue 1 1 registry (omega arith) registry-Provisioned
      ((1, omega arith, refl), ((2, omega arith, refl), tt))).3

-- The keys of two queues, the later name first.
abbrev two_queues : List Bytes
two_queues = encode_key (b'r' ∷ []) 3 ∷ encode_key queue 1 ∷ encode_key (b'r' ∷ []) 4 ∷ []

unlocked : (name : Bytes) → elem name registry.ack_locks ≡ false
unfolding elem
unlocked name = refl

ack_batch-IsIncreasing_example :
    IsIncreasing
      (ack_batch-IsIncreasing fault_free tenant two_queues registry registry-Provisioned
        (λ queue e. unlocked (lock_name tenant queue))).0
ack_batch-IsIncreasing_example =
    (ack_batch-IsIncreasing fault_free tenant two_queues registry registry-Provisioned
      (λ queue e. unlocked (lock_name tenant queue))).1
