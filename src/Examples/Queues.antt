-- ===== src/Examples/Queues.antt =====
-- The theorems on the queues, on the small registry.
use rocksqueue.Base.{
  inl, inr, ◌≤◌, ◌≡◌, refl, List, [], ◌∷◌, ok, err, backlog_quota_exceeded, length, arith,
}
use rocksqueue.Bytes.{Bytes, beq, compare_bytes, starts_with}
use rocksqueue.Policy.{reject, block, evict_oldest}
use rocksqueue.Rocks.Table.{put, prefixed, apply}
use rocksqueue.Task.Keys.{encode_key, queue_prefix, be_bytes}
use rocksqueue.Tenant.Names.{cf_pending, cf_inflight, cf_dlq}
use rocksqueue.Tenant.Enqueue.{Times, enqueue_batch_sync, enforce_quota}
use rocksqueue.Tenant.Enqueue.Quota.{enqueue-reject_fits, enqueue-reject_over, backlog}
use rocksqueue.Tenant.Enqueue.Evict.{enqueue-evict_oldest}
use rocksqueue.Tenant.Enqueue.Blocked.{Waited, enforce-block}
use rocksqueue.Tenant.Enqueue.Append.{locked}
use rocksqueue.Tenant.Dequeue.{
  dequeue_batch_unlocked, dequeue_with_max_inflight, deliver, saturating_add,
}
use rocksqueue.Tenant.Dequeue.Front.{consumed, delivered}
use rocksqueue.Tenant.Dequeue.Effect.{dequeue_batch_unlocked_lem}
use rocksqueue.Tenant.Dequeue.Limit.{dequeue_with_max_inflight_lem}
use rocksqueue.Tenant.State.View.{inflight, of_queue}
use rocksqueue.Memory.{memory, fault_free, contents, encode_task, decode_task, text}
use rocksqueue.Examples.{tenant, queue, task, registry, registry-Provisioned, small_quota, clock}

-- Opens what a run of the queues computes with.
unfoldable pub run_queues : Unit {0}
unfolding contents apply put prefixed starts_with compare_bytes beq encode_key be_bytes queue_prefix
    cf_pending cf_inflight cf_dlq fault_free
run_queues = tt

abbrev pub times : Times memory
times = record { start = 1000; polls = []; now = 1000 }

abbrev pub payloads : List (Bytes × Bytes)
payloads = (b'y' ∷ [], 1 ∷ []) ∷ []

enqueue-reject_fits_example :
    backlog fault_free tenant queue
      (enqueue_batch_sync memory tenant queue payloads (small_quota 6 reject) times registry).1
    ≤ 6
unfolding run_queues
enqueue-reject_fits_example =
    (enqueue-reject_fits fault_free tenant queue payloads (small_quota 6 reject) times 6 registry
      registry-Provisioned refl refl (omega arith) (refl, (refl, (refl, tt))) (omega arith)).1

enqueue-reject_over_example :
    enqueue_batch_sync memory tenant queue payloads (small_quota 5 reject) times registry
    ≡ (err (backlog_quota_exceeded tenant queue 5 5 1), locked memory tenant queue registry)
unfolding run_queues
enqueue-reject_over_example =
    enqueue-reject_over fault_free tenant queue payloads (small_quota 5 reject) times 5 registry
      registry-Provisioned refl refl (omega arith)

dequeue_batch_unlocked_lem_example :
    (dequeue_batch_unlocked memory tenant queue clock 1 60_000 registry).0
    ≡ ok ((encode_key queue 3, task 1 61_000) ∷ [])
unfolding run_queues consumed delivered deliver saturating_add decode_task encode_task text
dequeue_batch_unlocked_lem_example =
    (dequeue_batch_unlocked_lem fault_free tenant queue clock 1 60_000 registry
      registry-Provisioned).0

enqueue-evict_oldest_example :
    backlog fault_free tenant queue
      (enqueue_batch_sync memory tenant queue payloads
        (small_quota 5 evict_oldest)
        times
        registry).1
    ≤ 5
unfolding run_queues
enqueue-evict_oldest_example =
    (enqueue-evict_oldest fault_free tenant queue payloads (small_quota 5 evict_oldest) times 5
      registry registry-Provisioned refl refl (refl, (refl, (refl, tt))) (omega arith)).1

-- A producer that starts to wait at 1000 and whose clock then reads 1050 and 1200.
abbrev waiting : Times memory
waiting = record {
  start = 1000;
  polls = record { now = 1050; others = λ s. s } ∷ record { now = 1200; others = λ s. s } ∷ [];
  now = 1200;
}

enforce-block_example :
    Waited fault_free tenant queue 5 1
      (enforce_quota memory tenant queue (small_quota 5 (block 100)) 1 waiting registry)
enforce-block_example =
    enforce-block fault_free tenant queue 5 1 (small_quota 5 (block 100)) 100 waiting registry
      registry-Provisioned refl refl (inr (inl (omega arith))) ((λ s p. p), ((λ s p. p), tt))

dequeue_with_max_inflight_lem_example :
    length (
      of_queue queue (
        inflight fault_free tenant
          (dequeue_with_max_inflight memory tenant queue clock 10 60_000 3 registry).1))
    ≤ 3
unfolding run_queues
dequeue_with_max_inflight_lem_example =
    (dequeue_with_max_inflight_lem fault_free tenant queue clock 10 60_000 3 registry
      registry-Provisioned).3
