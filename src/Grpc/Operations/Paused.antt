-- ===== src/Grpc/Operations/Paused.antt =====
-- A pause and the handler of dequeues.
use rocksqueue.Base.{◌≡◌, refl, true, ℕ, Option-cases, Result-cases, inl, inr}
use rocksqueue.Bytes.{Bytes}
use rocksqueue.Float.{F64}
use rocksqueue.Grpc.Handler.{Server, offload}
use rocksqueue.Grpc.Tasks.{Hex, dequeue_tasks, policy_of, limit_or_default}
use rocksqueue.Grpc.Handler.{queue_or_default}
use rocksqueue.Rocks.World.{World}
use rocksqueue.Run.{returns, and_run}
use rocksqueue.Scheduler.{WfqScheduler, set_paused}
use rocksqueue.Tenant.Dequeue.{dequeue_with_max_inflight}
use rocksqueue.Tenant.Lifecycle.{get_policy}

module _ {w : World} {f : F64} where
  -- The server with another scheduler.
  abbrev pub with_scheduler : WfqScheduler f → Server w f → Server w f
  with_scheduler x s = record s { scheduler = x }

  -- A dequeue by the service does not look at the scheduler: on a server whose scheduler has the tenant
  -- paused it gives the same reply and does the same to the registry as on the server with the
  -- tenant not paused.
  pub dequeue_tasks-set_paused :
      (hex : Hex) (tenant_id queue : Bytes) (limit : ℕ) (clock : ℕ → ℕ) (s : Server w f)
      → let x = set_paused tenant_id true s.scheduler in
        dequeue_tasks w hex tenant_id queue limit clock (with_scheduler x s)
        ≡ and_run
            (dequeue_tasks w hex tenant_id queue limit clock s)
            (λ r. returns (r.0, with_scheduler x r.1))
  unfolding dequeue_tasks policy_of offload
  dequeue_tasks-set_paused hex tenant_id queue limit clock s =
      elim (Option-cases (get_policy w s.registry tenant_id)) [
        | inl e ↦ rw e refl
        | inr (p, e) ↦
            rw e
              (elim (Result-cases
                (dequeue_with_max_inflight w tenant_id (queue_or_default queue) clock
                  (limit_or_default limit) 60_000 p.max_inflight s.registry).0) [
                    | inl (a, d) ↦ rw d refl
                    | inr (q, d) ↦ rw d refl
                  ])
      ]
