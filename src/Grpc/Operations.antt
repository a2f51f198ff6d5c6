-- ===== src/Grpc/Operations.antt =====
-- grpc/control_plane.rs: pause, resume, drain, the dead letters, the throttle.
pub mod Paused
pub mod Drained
use rocksqueue.Base.{
  ℕ, ◌+◌, ◌*◌, ◌==◌, ◌%◌, ◌^◌, Bool, true, false, ◌&&◌, Option, none, some, List, [], ◌∷◌, leb, max,
  if◌then◌else◌,
}
use rocksqueue.Bytes.{Bytes}
use rocksqueue.Dash.{get}
use rocksqueue.Float.{F64}
use rocksqueue.Grpc.Handler.{
  Server, Handler, not_found, internal, reply, respond, fail, reads, changes, require, offload,
  ◌>>=◌, ◌>>◌,
}
use rocksqueue.Rocks.World.{World}
use rocksqueue.Run.{and_run, returns}
use rocksqueue.Scheduler
use rocksqueue.Store.{Bincode}
use rocksqueue.Tenant.Dlq
use rocksqueue.Tenant.State
use rocksqueue.Throttle.{AutoThrottle, ThrottleConfig}
use rocksqueue.Throttle

-- One round of a drain: the monotonic clock at its test, in nanoseconds, and what the others do
-- while it sleeps.
pub record DrainPoll (w : World) (f : F64) : Type 0 where
  pub now : ℕ
  pub others : Server w f → Server w f

-- The reply of a drain. `waiting` is no reply of the source: the schedule ran out before the
-- deadline.
pub data Drain : Type 0 where
  drained : Drain
  remaining : ℕ → Drain
  waiting : Drain

-- `queues.first().cloned().unwrap_or_default()`
unfoldable pub first_queue : List Bytes → Bytes
first_queue [] = []
first_queue (queue ∷ queues) = queue

module _ (w : World) {f : F64} where
  -- `set_paused(..).ok_or_else(..)?`
  unfoldable pub pause_to : (paused : Bool) (tenant_id : Bytes) → Handler (Server w f) (Unit {0})
  pause_to paused tenant_id = do
    found ← reads (λ s. get tenant_id s.scheduler.tenants)
    require not_found found
    changes (λ s. record s { scheduler = Scheduler.set_paused tenant_id paused s.scheduler })

  unfoldable pub pause_tenant : (tenant_id : Bytes) → Handler (Server w f) (Unit {0})
  pause_tenant tenant_id = pause_to true tenant_id

  unfoldable pub resume_tenant : (tenant_id : Bytes) → Handler (Server w f) (Unit {0})
  resume_tenant tenant_id = pause_to false tenant_id

  unfoldable pub drain_loop :
      (tenant_id queue : Bytes) (deadline : ℕ) → List (DrainPoll w f) → Handler (Server w f) Drain
  drain_loop tenant_id queue deadline [] = respond waiting
  drain_loop tenant_id queue deadline (poll ∷ polls) = do
    (pending, inflight, _) ← offload (State.depth w tenant_id queue)
    let rest : Handler (Server w f) Drain = do
      changes poll.others
      drain_loop tenant_id queue deadline polls
    if (pending == 0) && (inflight == 0)
        then respond drained
        else if leb deadline poll.now
        then respond (remaining ((pending + inflight) % 2 ^ 64))
        else rest

  -- `start` is the clock before the loop.
  unfoldable pub drain_tenant :
      (tenant_id : Bytes) (timeout_secs start : ℕ) (polls : List (DrainPoll w f))
      → Handler (Server w f) Drain
  drain_tenant tenant_id timeout_secs start polls = do
    changes (λ s. record s { scheduler = Scheduler.set_paused tenant_id true s.scheduler })
    queues ← reads (λ s. s.queues)
    drain_loop tenant_id (first_queue queues) (start + max timeout_secs 1 * 1_000_000_000) polls

  unfoldable pub purge_dlq : (tenant_id : Bytes) → Handler (Server w f) ℕ
  purge_dlq tenant_id = offload (Dlq.purge_dlq w tenant_id)

  unfoldable pub replay_dlq : (tenant_id : Bytes) → Handler (Server w f) ℕ
  replay_dlq tenant_id = offload (Dlq.replay_dlq w tenant_id)

  -- The throttle's view of what it shares with the service, and back.
  abbrev pub throttle_of : Server w f → AutoThrottle w f
  throttle_of s = record {
    states = s.throttles;
    scheduler = s.scheduler;
    baselines = s.baselines;
    db = s.registry.db;
    held = none;
  }

  abbrev pub with_throttle : AutoThrottle w f → Server w f → Server w f
  with_throttle t s = record s {
    throttles = t.states;
    scheduler = t.scheduler;
    baselines = t.baselines;
    registry = record s.registry { db = t.db };
  }

  unfoldable pub force_release_throttle :
      (bin : Bincode f) (config : ThrottleConfig f) (clock : ℕ → ℕ) (tenant_id : Bytes)
      → Handler (Server w f) (Unit {0})
  force_release_throttle bin config clock tenant_id s =
      and_run (Throttle.force_release w bin config clock tenant_id (throttle_of s))
        (λ t. returns (reply tt, with_throttle t s))
