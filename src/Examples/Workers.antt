-- ===== src/Examples/Workers.antt =====
-- The theorems on the scheduler, the workers and compaction, at concrete inputs.
use rocksqueue.Base.{
  ◌^◌, ℕ, ◌+◌, ◌-◌, ◌*◌, ◌/◌, ◌≡◌, ◌⊎◌, ◌↔◌, some, [], ◌∷◌, Result, err, io, ltb, compare, min, max,
  arith,
}
use rocksqueue.Bytes.{Bytes}
use rocksqueue.Float.{F64}
use rocksqueue.Task.{Task}
use rocksqueue.Task.Keys.{encode_key}
use rocksqueue.Scheduler.{WfqScheduler, wfq_standard, wfq_premium, register, schedule}
use rocksqueue.Scheduler.Slots.{total, schedule-total}
use rocksqueue.Stats.{Collector}
use rocksqueue.Worker.{process_task}
use rocksqueue.Worker.Tasks.{Processed, process_task_lem}
use rocksqueue.Compaction.{new_counters, keep, pending_filter}
use rocksqueue.Compaction.Laws.{filters-keep, IsYoung}
use rocksqueue.Baseline.{TenantBaseline, new_baseline_of, update}
use rocksqueue.Baseline.Promotions.{Updated, update_lem}
use rocksqueue.Memory.{memory, fault_free, encode_task}
use rocksqueue.Examples.{tenant, queue, task, registry, registry-Provisioned, clock}

-- Thousandths stand in for `f64`.
abbrev pub thousandths : F64
thousandths = record {
  Num = ℕ;
  of_nat = λ n. 1000 * n;
  add = λ a b. a + b;
  sub = λ a b. a - b;
  mul = λ a b. a * b / 1000;
  div = λ a b. a * 1000 / b;
  neg_infinity = 0;
  max_value = 1_000_000_000;
  neg = λ a. 0 - a;
  powf = λ a b. a ^ b;
  sqrt = λ a. a;
  min = min;
  max = max;
  gt = λ a b. ltb b a;
  partial_cmp = λ a b. some (compare a b);
  floor = λ a. a / 1000;
  truncate = λ a. a / 1000;
  secs = λ a. a;
}

abbrev scheduler : WfqScheduler thousandths
scheduler =
    register clock (wfq_premium (b'b' ∷ []))
      (register clock (wfq_standard tenant) (record { tenants = []; virtual_time = 0 }))

schedule-total_example :
    ((schedule clock 60 scheduler).0 ≡ []) ⊎ (total (schedule clock 60 scheduler).0 ≡ 60)
schedule-total_example = schedule-total 60 (omega arith) clock scheduler

abbrev handler : Bytes → Task → Result (Unit {0})
handler id t = err (io 3)

abbrev collector : Collector thousandths
collector = []

process_task_lem_example :
    Processed fault_free thousandths handler tenant
      (encode_key queue 1)
      (task 1 200)
      5
      1000
      (registry, collector)
      (process_task memory thousandths handler tenant
        (encode_key queue 1)
        (task 1 200)
        5
        1000
        (registry, collector))
process_task_lem_example =
    process_task_lem fault_free thousandths handler tenant (encode_key queue 1) (task 1 200) 5 1000
      registry collector registry-Provisioned

abbrev retention : ℕ
retention = 3

filters-keep_example :
    ((pending_filter memory 5000 retention (encode_task (task 0 0)) new_counters).0 ≡ keep)
    ↔ ((retention ≡ 0) ⊎ IsYoung memory 5000 (encode_task (task 0 0)) new_counters retention)
filters-keep_example =
    (filters-keep memory 5000 (encode_task (task 0 0)) new_counters retention 10 60).0

abbrev baseline : TenantBaseline thousandths
baseline = new_baseline_of thousandths 1000 tenant 10

update_lem_example : Updated thousandths baseline (update thousandths 2000 500 1 1 3 baseline)
unfolding new_baseline_of
update_lem_example = update_lem 2000 500 1 1 3 baseline (omega arith)
