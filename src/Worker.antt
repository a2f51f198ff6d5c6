-- ===== src/Worker.antt =====
-- fair_worker.rs: what a worker does with its share of the slots. The handler, which is the
-- program's own and may keep state, is given by its result at the call.
pub mod Tasks
use rocksqueue.Base.{
  ℕ, suc, ◌==◌, ◌/◌, Bool, true, false, List, [], ◌∷◌, Result, ok, err, max, if◌then◌else◌,
}
use rocksqueue.Bytes.{Bytes}
use rocksqueue.Float.{F64}
use rocksqueue.Rocks.World.{World}
use rocksqueue.Task.{Task}
use rocksqueue.Tenant.State.{Registry}
use rocksqueue.Tenant.Dequeue.{dequeue}
use rocksqueue.Tenant.Settle.{ack, nack}
use rocksqueue.Stats.{Collector, record_ack, record_nack}
use rocksqueue.Stats.Allocate.{allocate_slots}

module _ (w : World) (f : F64) where
  -- What the workers share: the registry and the statistics.
  abbrev pub Shared : Type 0
  Shared = Registry w × Collector f

  module _ (handler : Bytes → Task → Result (Unit {0})) where
    -- The outcome of `ack`: only a key that was inflight is counted.
    unfoldable pub acked :
        (tenant : Bytes) (latency_ms : ℕ) → Result Bool → Collector f → Collector f
    acked tenant latency_ms (ok true) c = record_ack tenant latency_ms c
    acked tenant latency_ms (ok false) c = c
    acked tenant latency_ms (err e) c = c

    unfoldable pub process_task :
        (tenant key : Bytes) (task : Task) (latency_ms now : ℕ) → Shared → Shared
    process_task tenant key task latency_ms now (s, c) = elim (handler tenant task) [
      | ok u ↦ let r = ack w tenant key s in (r.1, acked tenant latency_ms r.0 c)
      | err e ↦ ((nack w tenant key now s).1, record_nack tenant c)
    ]

  -- The loop around it. The shared state comes with the number of tasks and dequeues so far: the
  -- `n`-th handler call has the result `handlers n`, takes `latencies n` milliseconds, and the
  -- registry reads `clocks n`.
  module _ (handlers : ℕ → Bytes → Task → Result (Unit {0})) (clocks : ℕ → ℕ → ℕ)
      (latencies : ℕ → ℕ) where
    unfoldable pub process_tasks : (tenant : Bytes) → List (Bytes × Task) → ℕ × Shared → ℕ × Shared
    process_tasks tenant [] st = st
    process_tasks tenant ((key, task) ∷ tasks) (n, st) =
        process_tasks tenant tasks
          (suc n, process_task (handlers n) tenant key task (latencies n) (clocks n 0) st)

    unfoldable pub process_result :
        (tenant : Bytes) → Result (List (Bytes × Task)) → ℕ × Shared → ℕ × Shared
    process_result tenant (ok tasks) st = process_tasks tenant tasks st
    process_result tenant (err e) st = st

    unfoldable pub serve_queues :
        (tenant : Bytes) (slots : ℕ) → List Bytes → ℕ × Shared → ℕ × Shared
    serve_queues tenant slots [] st = st
    serve_queues tenant slots (queue ∷ queues) (n, (s, c)) =
        let r = dequeue w tenant queue (clocks n) slots s in
        serve_queues tenant slots queues (process_result tenant r.0 (suc n, (r.1, c)))

    unfoldable pub serve : (queues : List Bytes) → List (Bytes × ℕ) → ℕ × Shared → ℕ × Shared
    serve queues [] st = st
    serve queues ((tenant, slots) ∷ schedule) st =
        let served = serve_queues tenant slots queues st in
        serve queues schedule (if slots == 0 then st else served)

    -- One tick of the loop of a worker; `ticks i` is the clock of the statistics.
    unfoldable pub worker_tick :
        (ticks : ℕ → ℕ) (queues : List Bytes) (total_slots concurrency : ℕ)
        → ℕ × Shared
        → ℕ × Shared
    worker_tick ticks queues total_slots concurrency (n, (s, c)) =
        let worker_slots = max (total_slots / concurrency) 1 in
        serve queues (allocate_slots f ticks worker_slots c) (n, (s, c))
