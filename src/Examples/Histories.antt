-- ===== src/Examples/Histories.antt =====
-- A short history of a tenant that starts with no record.
use rocksqueue.Base.{◌≡◌, refl, arith, [], ◌∷◌, map, drop, length}
use rocksqueue.Bytes.{beq}
use rocksqueue.Policy.{reject}
use rocksqueue.Rocks.Table.{apply, put_cf, lookup}
use rocksqueue.Reaper.{reap_inflight}
use rocksqueue.Tenant.Names.{cf_pending, cf_inflight, cf_dlq}
use rocksqueue.Tenant.State.{Registry}
use rocksqueue.Tenant.Dequeue.{dequeue_batch, dequeue_batch_unlocked, saturating_add}
use rocksqueue.Tenant.Dequeue.Effect.{front}
use rocksqueue.Tenant.Dequeue.Front.{delivered}
use rocksqueue.Tenant.Settle.{ack_batch}
use rocksqueue.Tenant.Settle.Delivered.{dequeue-ack_batch}
use rocksqueue.Tenant.State.View.{pending, of_queue}
use rocksqueue.Tenant.Enqueue.{Times, enqueue_batch_sync}
use rocksqueue.Tenant.Places.{present, IsWellPlaced}
use rocksqueue.Tenant.Places.Steps.{Step, here, next}
use rocksqueue.Tenant.Places.Reach.{Reach-IsWellPlaced}
use rocksqueue.Memory.{encode_task, decode-encode, memory, fault_free, has_name, contents}
use rocksqueue.Examples.{tenant, queue, names, small_quota, clock, registry, task}
use rocksqueue.Examples.Queues.{run_queues}
use rocksqueue.Tenant.Overlap.{nack_value-reap_inflight}
use rocksqueue.Task.Keys.{encode_key}
use rocksqueue.Task.Keys.Laws.{decode_key_seq-encode_key}
use rocksqueue.Base.{Bool, true, false, ◌||◌, ap, sym, ◌∙◌}
use rocksqueue.Bytes.Order.{beq_iff}
use rocksqueue.Tenant.Settle.{nack_value}
use rocksqueue.Tenant.Places.{numbered, single}
use rocksqueue.Tenant.State.View.{dlq}
use rocksqueue.Reaper.{is_expired}

abbrev blank : Registry memory
blank = record registry { db = record { names = names; log = [] }; seq = 0 }

blank-IsWellPlaced : IsWellPlaced fault_free tenant blank
unfolding has_name cf_pending cf_inflight cf_dlq beq present contents apply fault_free
blank-IsWellPlaced = record {
  provisioned = record { has_pending = refl; has_inflight = refl; has_dlq = refl };
  placed = λ k. refl;
}

abbrev times : Times memory
times = record { start = 100; polls = []; now = 100 }

-- Two tasks come, one is delivered, and its deadline passes.
abbrev pub two_come : Registry memory
two_come =
    (enqueue_batch_sync memory tenant queue ((1 ∷ [], 7 ∷ []) ∷ (2 ∷ [], 8 ∷ []) ∷ [])
      (small_quota 5 reject) times blank).1

abbrev one_delivered : Registry memory
one_delivered = (dequeue_batch memory tenant queue clock 1 500 two_come).1

abbrev reclaimed : Registry memory
reclaimed = (reap_inflight memory tenant queue (λ i. 5000) one_delivered).1

Reach-IsWellPlaced_example : IsWellPlaced fault_free tenant reclaimed
Reach-IsWellPlaced_example =
    Reach-IsWellPlaced fault_free tenant blank reclaimed blank-IsWellPlaced (
      next
        (next
          (next here (Step.enqueued queue _ (small_quota 5 reject) times blank refl (omega arith)))
          (Step.dequeued queue clock 1 500 two_come))
        (Step.reaped queue (λ i. 5000) one_delivered))

pub two_come-IsWellPlaced : IsWellPlaced fault_free tenant two_come
two_come-IsWellPlaced =
    Reach-IsWellPlaced fault_free tenant blank two_come blank-IsWellPlaced
      (next here (Step.enqueued queue _ (small_quota 5 reject) times blank refl (omega arith)))

-- One of the two tasks is delivered and acknowledged: the other is left.
dequeue-ack_batch_example :
    of_queue queue (
      pending fault_free tenant
        (ack_batch memory tenant
          (map
            (λ e. e.0)
            (delivered memory
              (saturating_add 1000 500)
              (front fault_free tenant queue clock 1 two_come)))
          (dequeue_batch_unlocked memory tenant queue clock 1 500 two_come).1).1)
    ≡ drop
        (length (front fault_free tenant queue clock 1 two_come))
        (of_queue queue (pending fault_free tenant two_come))
dequeue-ack_batch_example =
    (dequeue-ack_batch fault_free tenant queue clock 1 500 two_come two_come-IsWellPlaced).5

-- One overdue task that has used up its attempts is inflight.
abbrev worn_out : Registry memory
worn_out = record registry {
  db = record {
    names = names;
    log = put_cf (cf_inflight tenant) (encode_key queue 2) (encode_task (task 5 200)) ∷ [];
  };
}

worn_out_numbered : numbered 6 (encode_key queue 2) ≡ true
unfolding numbered
worn_out_numbered = rw (numbered, decode_key_seq-encode_key queue 2 (omega arith)) refl

one_place : (b n : Bool) → (b ≡ true → n ≡ true) → single false (b || false) false n ≡ true
one_place false n h = refl
one_place true n h = ground (arith, h refl)

worn_out-IsWellPlaced : IsWellPlaced fault_free tenant worn_out
unfolding run_queues has_name present
worn_out-IsWellPlaced = record {
  provisioned = record { has_pending = refl; has_inflight = refl; has_dlq = refl };
  placed = λ k.
      one_place (beq (encode_key queue 2) k) (numbered 6 k)
        (λ e. ap (numbered 6) (sym ((beq_iff (encode_key queue 2) k).0 e)) ∙ worn_out_numbered);
}

nack_value-reap_inflight_example :
    present (encode_key queue 2) (
      dlq fault_free tenant
        (nack_value memory tenant
          (encode_key queue 2)
          (encode_task (task 5 200))
          1000
          (reap_inflight memory tenant queue clock worn_out).1).1)
    ≡ true
unfolding run_queues lookup is_expired
nack_value-reap_inflight_example =
    (nack_value-reap_inflight fault_free tenant queue clock (encode_key queue 2)
      (encode_task (task 5 200)) (task 5 200) 1000 worn_out worn_out-IsWellPlaced refl refl
      (decode-encode (task 5 200)) refl (omega arith)).2
