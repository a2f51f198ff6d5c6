-- ===== src/Grpc/Views.antt =====
-- grpc/control_plane.rs: what can be asked about a tenant. A message that copies all fields of a
-- record is that record.
use rocksqueue.Base.{ℕ, Bool, false, Option, none, some, List, map}
use rocksqueue.Baseline.{TenantBaseline}
use rocksqueue.Bytes.{Bytes}
use rocksqueue.Dash.{get}
use rocksqueue.Float.{F64}
use rocksqueue.Grpc.Handler.{Server, Handler, not_found, respond, reads, require, offload, ◌>>=◌}
use rocksqueue.Grpc.Operations.{first_queue, throttle_of}
use rocksqueue.Rocks.World.{World}
use rocksqueue.Scheduler.{TenantState}
use rocksqueue.Stats.{TenantStats, snapshot}
use rocksqueue.Tenant.State
use rocksqueue.Throttle.{ThrottleState}
use rocksqueue.Throttle

pub record TenantStatus : Type 0 where
  pub tenant_id : Bytes
  pub paused : Bool
  pub pending : ℕ
  pub inflight : ℕ
  pub dlq : ℕ

module _ (f : F64) where
  pub record TenantStatsResponse : Type 0 where
    pub tenant_id : Bytes
    pub arrival_rate : f.Num
    pub processing_rate : f.Num
    pub avg_task_latency : f.Num
    pub burst_score : f.Num
    pub backlog_ratio : f.Num
    pub total_enqueued : ℕ
    pub total_acked : ℕ
    pub total_nacked : ℕ
    pub stats_version : ℕ
    pub is_new : Bool

  pub record BaselineStatus : Type 0 where
    pub tenant_id : Bytes
    pub short_ema : f.Num
    pub long_ema : f.Num
    pub rolling_peak : f.Num
    pub spike_threshold : f.Num
    pub last_updated_ms : ℕ

module _ {f : F64} where
  -- `tenant_snapshot(..).map(|(_, _, paused, _)| paused).unwrap_or(false)`
  unfoldable pub paused_of : Option (TenantState f) → Bool
  paused_of none = false
  paused_of (some state) = state.paused

  unfoldable pub stats_response : TenantStats f → TenantStatsResponse f
  stats_response s = record {
    tenant_id = s.tenant_id;
    arrival_rate = s.arrival_rate;
    processing_rate = s.processing_rate;
    avg_task_latency = s.avg_task_latency;
    burst_score = s.burst_score;
    backlog_ratio = s.backlog_ratio;
    total_enqueued = s.total_enqueued;
    total_acked = s.total_acked;
    total_nacked = s.total_nacked;
    stats_version = s.stats_version;
    is_new = s.is_new;
  }

  unfoldable pub baseline_status : TenantBaseline f → BaselineStatus f
  baseline_status b = record {
    tenant_id = b.tenant_id;
    short_ema = b.short_ema;
    long_ema = b.long_ema;
    rolling_peak = b.rolling_peak;
    spike_threshold = b.spike_threshold;
    last_updated_ms = b.last_updated_ms;
  }

module _ (w : World) {f : F64} where
  unfoldable pub get_tenant_status : (tenant_id : Bytes) → Handler (Server w f) TenantStatus
  get_tenant_status tenant_id = do
    queues ← reads (λ s. s.queues)
    (pending, inflight, dlq) ← offload (State.depth w tenant_id (first_queue queues))
    paused ← reads (λ s. paused_of (get tenant_id s.scheduler.tenants))
    respond (record {
      tenant_id = tenant_id;
      paused = paused;
      pending = pending;
      inflight = inflight;
      dlq = dlq;
    })

  unfoldable pub get_tenant_stats :
      (tenant_id : Bytes) → Handler (Server w f) (TenantStatsResponse f)
  get_tenant_stats tenant_id = do
    found ← reads (λ s. snapshot tenant_id s.collector)
    stats ← require not_found found
    respond (stats_response stats)

  unfoldable pub list_all_stats : Handler (Server w f) (List (TenantStatsResponse f))
  list_all_stats = reads (λ s. map (λ e. stats_response e.1.stats) s.collector)

  unfoldable pub get_throttle_status : (tenant_id : Bytes) → Handler (Server w f) ThrottleState
  get_throttle_status tenant_id = do
    found ← reads (λ s. Throttle.snapshot tenant_id (throttle_of w s))
    require not_found found

  unfoldable pub list_throttled : Handler (Server w f) (List ThrottleState)
  list_throttled = reads (λ s. Throttle.all_snapshots (throttle_of w s))

  unfoldable pub get_baseline_status : (tenant_id : Bytes) → Handler (Server w f) (BaselineStatus f)
  get_baseline_status tenant_id = do
    found ← reads (λ s. get tenant_id s.baselines)
    b ← require not_found found
    respond (baseline_status b)

  unfoldable pub list_all_baselines : Handler (Server w f) (List (BaselineStatus f))
  list_all_baselines = reads (λ s. map (λ e. baseline_status e.1) s.baselines)
