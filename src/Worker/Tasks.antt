-- ===== src/Worker/Tasks.antt =====
-- What happens to a task that a worker has processed.
use rocksqueue.Base.{
  ℕ, ◌≡◌, refl, ◌∙◌, none, some, Result, ok, err, QueueError, Result-cases, Option-cases, inl, inr,
}
use rocksqueue.Bytes.{Bytes}
use rocksqueue.Float.{F64}
use rocksqueue.Rocks.Table.{lookup, delete}
use rocksqueue.Rocks.Table.Lookup.{delete_absent}
use rocksqueue.Rocks.World.{World, FaultFree}
use rocksqueue.Task.{Task}
use rocksqueue.Tenant.State.{Registry}
use rocksqueue.Tenant.State.View.{Provisioned, pending, inflight, dlq}
use rocksqueue.Tenant.Settle.{nack}
use rocksqueue.Tenant.Settle.Single.{ack_lem}
use rocksqueue.Tenant.Settle.Nacks.{Nacked, nack_lem}
use rocksqueue.Stats.{Collector, record_ack, record_nack}
use rocksqueue.Worker.{Shared, acked, process_task}

-- The three ways in which a task is processed, `st` and `r` being the shared state before and after.
pub data Processed {w : World} (ff : FaultFree w) (f : F64)
    (handler : Bytes → Task → Result (Unit {0})) (tenant key : Bytes) (task : Task)
    (latency_ms now : ℕ) (st r : Shared w f) : Type 0 where
  done :
      (v : Bytes)
      → handler tenant task ≡ ok tt
      → lookup key (inflight ff tenant st.0) ≡ some v
      → inflight ff tenant r.0 ≡ delete key (inflight ff tenant st.0)
      → pending ff tenant r.0 ≡ pending ff tenant st.0
      → dlq ff tenant r.0 ≡ dlq ff tenant st.0
      → r.1 ≡ record_ack tenant latency_ms st.1
      → Processed ff f handler tenant key task latency_ms now st r
  gone :
      handler tenant task ≡ ok tt
      → lookup key (inflight ff tenant st.0) ≡ none
      → inflight ff tenant r.0 ≡ inflight ff tenant st.0
      → pending ff tenant r.0 ≡ pending ff tenant st.0
      → dlq ff tenant r.0 ≡ dlq ff tenant st.0
      → r.1 ≡ st.1
      → Processed ff f handler tenant key task latency_ms now st r
  failed :
      (e : QueueError)
      → handler tenant task ≡ err e
      → Nacked ff tenant key now st.0 (nack w tenant key now st.0)
      → r ≡ ((nack w tenant key now st.0).1, record_nack tenant st.1)
      → Processed ff f handler tenant key task latency_ms now st r

module _ {w : World} (ff : FaultFree w) (f : F64) (handler : Bytes → Task → Result (Unit {0}))
    (tenant key : Bytes) (task : Task) (latency_ms now : ℕ) (s : Registry w) (c : Collector f)
    (p : Provisioned w tenant s) where
  -- On a database where no call fails, a worker acknowledges a task whose handler succeeds, and
  -- counts it exactly if its key was inflight; it gives a task back whose handler fails, with
  -- one of the outcomes of `nack`, and counts that.
  pub process_task_lem :
      Processed ff f handler tenant key task latency_ms now
        (s, c)
        (process_task w f handler tenant key task latency_ms now (s, c))
  unfolding process_task acked
  process_task_lem = elim (Result-cases (handler tenant task)) [
    | inr (e, h) ↦ rw (process_task, h) (Processed.failed e h (nack_lem ff tenant key now s p) refl)
    | inl (tt, h) ↦
        let a = ack_lem ff tenant key s p in
        elim (Option-cases (lookup key (inflight ff tenant s))) [
          | inl n ↦
              rw (process_task, h)
                (Processed.gone h n (a.1 ∙ delete_absent key _ n) a.2 a.3 (rw (a.0, n) refl))
          | inr (v, n) ↦ rw (process_task, h) (Processed.done v h n a.1 a.2 a.3 (rw (a.0, n) refl))
        ]
  ]
