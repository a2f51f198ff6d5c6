-- ===== src/Grpc/Handler.antt =====
-- grpc/control_plane.rs: the state behind the service, the codes of its statuses, and what its
-- handlers are made of. The texts of messages are for people and left out; the request's fields
-- are the handlers' arguments.
use rocksqueue.Base.{
  ◌≡◌, ap, ◌∙◌, Option, none, some, List, [], ◌∷◌, Result, ok, err, Exec, QueueError, rocks_db,
  serialization, queue_not_found, task_not_found, column_family_missing, backlog_quota_exceeded, io,
  still_waiting,
}
use rocksqueue.Baseline.{TenantBaseline}
use rocksqueue.Bytes.{Bytes}
use rocksqueue.Dash.{Dash}
use rocksqueue.Float.{F64}
use rocksqueue.Rocks.World.{World}
use rocksqueue.Run.{Run, returns, and_run}
use rocksqueue.Scheduler.{WfqScheduler}
use rocksqueue.Stats.{Collector}
use rocksqueue.Tenant.State.{Registry}
use rocksqueue.Throttle.{ThrottleState}

-- `ControlPlaneService`: the throttle shares the scheduler, the baselines and the database.
pub record Server (w : World) (f : F64) : Type 0 where
  pub registry : Registry w
  pub scheduler : WfqScheduler f
  pub collector : Collector f
  pub throttles : Dash ThrottleState
  pub baselines : Dash (TenantBaseline f)
  pub queues : List Bytes

pub data Status : Type 0 where
  not_found : Status
  invalid_argument : Status
  resource_exhausted : Status
  internal : Status

pub data Reply {ℓ} (A : Type ℓ) : Type ℓ where
  reply : A → Reply A
  status : Status → Reply A

unfoldable pub queue_error : QueueError → Status
queue_error (column_family_missing name) = not_found
queue_error (queue_not_found name) = not_found
queue_error (task_not_found name) = not_found
queue_error (backlog_quota_exceeded tenant queue current quota incoming) = resource_exhausted
queue_error (rocks_db e) = internal
queue_error (serialization e) = internal
queue_error (io e) = internal
queue_error still_waiting = internal

-- "default"
abbrev pub default_queue : Bytes
default_queue = b'd' ∷ b'e' ∷ b'f' ∷ b'a' ∷ b'u' ∷ b'l' ∷ b't' ∷ []

unfoldable pub queue_or_default : Bytes → Bytes
queue_or_default [] = default_queue
queue_or_default (b ∷ queue) = b ∷ queue

-- A handler replies or ends with a status; a call that panics or waits for itself gives neither.
abbrev pub Handler {ℓ κ} : Type ℓ → Type κ → Type (ℓ ⊔ κ)
Handler S A = S → Run (Reply A × S)

module _ {ℓ κ} {S : Type ℓ} {A : Type κ} where
  abbrev pub respond : A → Handler S A
  respond a s = returns (reply a, s)

  abbrev pub fail : Status → Handler S A
  fail c s = returns (status c, s)

  abbrev pub reads : (S → A) → Handler S A
  reads g s = returns (reply (g s), s)

  -- `ok_or_else(|| ..)?`
  abbrev pub require : Status → Option A → Handler S A
  require c none s = returns (status c, s)
  require c (some a) s = returns (reply a, s)

abbrev pub changes {ℓ} : {S : Type ℓ} → (S → S) → Handler S (Unit {0})
changes g s = returns (reply tt, g s)

module _ {ℓ κ μ} {S : Type ℓ} {A : Type κ} {B : Type μ} where
  abbrev pub after : Reply A → (A → Handler S B) → Handler S B
  after (reply a) g s = g a s
  after (status c) g s = returns (status c, s)

  infixl 5 ◌>>=◌ ◌>>◌
  abbrev pub ◌>>=◌ : Handler S A → (A → Handler S B) → Handler S B
  ◌>>=◌ m g s = and_run (m s) (λ r. after r.0 g r.1)

  abbrev pub ◌>>◌ : Handler S A → Handler S B → Handler S B
  ◌>>◌ m k s = and_run (m s) (λ r. after r.0 (λ _. k) r.1)

  -- A block goes on with the reply of its first call, or ends with its status.
  pub handled :
      (g : A → Handler S B) {r : Run (Reply A × S)} {s : S} {a : A} {q : Run (Reply B × S)}
      → r ≡ returns (reply a, s)
      → g a s ≡ q
      → and_run r (λ x. after x.0 g x.1) ≡ q
  handled g e h = ap (λ x. and_run x (λ x. after x.0 g x.1)) e ∙ h

  pub refused :
      (g : A → Handler S B) {r : Run (Reply A × S)} {s : S} {c : Status}
      → r ≡ returns (status c, s)
      → and_run r (λ x. after x.0 g x.1) ≡ returns (status c, s)
  refused g e = ap (λ x. and_run x (λ x. after x.0 g x.1)) e

abbrev pub reply_of {ℓ} : {A : Type ℓ} → Result A → Reply A
reply_of (ok a) = reply a
reply_of (err e) = status (queue_error e)

module _ {w : World} {f : F64} where
  -- A call of the registry on the blocking pool.
  unfoldable pub offload {ℓ} : {A : Type ℓ} → Exec (Registry w) A → Handler (Server w f) A
  offload m s = returns (reply_of (m s.registry).0, record s { registry = (m s.registry).1 })

  pub offload_ok {ℓ} :
      {A : Type ℓ} (m : Exec (Registry w) A) (s : Server w f) (a : A) (r : Registry w)
      → m s.registry ≡ (ok a, r)
      → offload m s ≡ returns (reply a, record s { registry = r })
  unfolding offload
  offload_ok m s a r e i = returns (reply_of (e i).0, record s { registry = (e i).1 })

  pub offload_err {ℓ} :
      {A : Type ℓ} (m : Exec (Registry w) A) (s : Server w f) (e : QueueError) (r : Registry w)
      → m s.registry ≡ (err e, r)
      → offload m s ≡ returns (status (queue_error e), record s { registry = r })
  unfolding offload
  offload_err m s e r h i = returns (reply_of (h i).0, record s { registry = (h i).1 })
