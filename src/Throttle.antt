-- ===== src/Throttle.antt =====
-- throttle.rs: `AutoThrottle`. `now` is a reading of the clock in milliseconds, `clock` that of
-- the scheduler, in which a tenant is registered when its policy is unknown. `DashMap` says that a
-- thread that holds a reference into the map and removes that entry waits for itself.
pub mod Applied
pub mod Released
pub mod Restore
pub mod Restored
pub mod Kept
pub mod Evaluated
use rocksqueue.Base.{
  ℕ, ◌+◌, ◌*◌, ◌%◌, ◌^◌, ◌-◌, Bool, true, false, ◌&&◌, ◌||◌, Option, none, some, List, [], ◌∷◌, map,
  min, max, leb, ltb, if◌then◌else◌,
}
use rocksqueue.Baseline.{TenantBaseline, is_spike, spike_threshold_of}
use rocksqueue.Bytes.{Bytes, beq}
use rocksqueue.Dash.{Dash, get, insert, remove}
use rocksqueue.Float.{F64}
use rocksqueue.Rocks.World.{World}
use rocksqueue.Run.{Run, returns, panics, blocks, and_run}
use rocksqueue.Scheduler.{TenantPolicy, WfqScheduler, policy, update_policy}
use rocksqueue.Stats.{TenantStats}
use rocksqueue.Store.{
  PersistedThrottle, Bincode, persist_throttle, clear_throttle, load_all_throttles,
}

module _ (f : F64) where
  pub record ThrottleConfig : Type 0 where
    pub burst_threshold : f.Num
    pub rate_spike_factor : f.Num
    pub backlog_threshold : f.Num
    pub reduction_factor : f.Num
    pub min_rate_floor : ℕ
    pub cooldown_secs : ℕ
    pub baseline_window_secs : ℕ

  -- The number `a / b`.
  abbrev pub ratio : ℕ → ℕ → f.Num
  ratio a b = f.div (f.of_nat a) (f.of_nat b)

  unfoldable pub default_config : ThrottleConfig
  default_config = record {
    burst_threshold = f.of_nat 5;
    rate_spike_factor = f.of_nat 3;
    backlog_threshold = ratio 85 100;
    reduction_factor = ratio 1 4;
    min_rate_floor = 5;
    cooldown_secs = 30;
    baseline_window_secs = 300;
  }

pub record ThrottleState : Type 0 where
  pub tenant_id : Bytes
  pub throttled : Bool
  pub reason : Bytes
  pub original_rate : ℕ
  pub applied_rate : ℕ
  pub triggered_at_ms : ℕ
  pub cooldown_until_ms : ℕ

-- "burst_score_exceeded"
abbrev pub burst_score_exceeded : Bytes
burst_score_exceeded =
    b'b' ∷ b'u' ∷ b'r' ∷ b's' ∷ b't' ∷ b'_' ∷ b's' ∷ b'c' ∷ b'o' ∷ b'r' ∷ b'e' ∷ b'_' ∷ b'e' ∷ b'x'
    ∷ b'c' ∷ b'e' ∷ b'e' ∷ b'd' ∷ b'e' ∷ b'd' ∷ []

-- "backlog_threshold_exceeded"
abbrev pub backlog_threshold_exceeded : Bytes
backlog_threshold_exceeded =
    b'b' ∷ b'a' ∷ b'c' ∷ b'k' ∷ b'l' ∷ b'o' ∷ b'g' ∷ b'_' ∷ b't' ∷ b'h' ∷ b'r' ∷ b'e' ∷ b's' ∷ b'h'
    ∷ b'o' ∷ b'l' ∷ b'd' ∷ b'_' ∷ b'e' ∷ b'x' ∷ b'c' ∷ b'e' ∷ b'e' ∷ b'd' ∷ b'e' ∷ b'd' ∷ []

-- "rate_spike_detected"
abbrev pub rate_spike_detected : Bytes
rate_spike_detected =
    b'r' ∷ b'a' ∷ b't' ∷ b'e' ∷ b'_' ∷ b's' ∷ b'p' ∷ b'i' ∷ b'k' ∷ b'e' ∷ b'_' ∷ b'd' ∷ b'e' ∷ b't'
    ∷ b'e' ∷ b'c' ∷ b't' ∷ b'e' ∷ b'd' ∷ []

-- `AutoThrottle` but for its configuration, with the parts that it shares; `held` is the entry of
-- `states` to which the thread holds a reference.
pub record AutoThrottle (w : World) (f : F64) : Type 0 where
  pub states : Dash ThrottleState
  pub scheduler : WfqScheduler f
  pub baselines : Dash (TenantBaseline f)
  pub db : w.Db
  pub held : Option Bytes

-- `states.remove(tenant_id)`
unfoldable pub remove_state :
    {w : World} {f : F64} → Bytes → AutoThrottle w f → Run (AutoThrottle w f)
remove_state id t = elim t.held [
  | none ↦ returns (record t { states = remove id t.states })
  | some k ↦ if beq k id then blocks else returns (record t { states = remove id t.states })
]

module _ (w : World) {f : F64} (bin : Bincode f) (config : ThrottleConfig f) (clock : ℕ → ℕ) where
  -- `x as u32` of a number that `as u64` gives as `n`
  abbrev pub as_u32 : f.Num → ℕ
  as_u32 x = min (f.truncate x) (2 ^ 32 - 1)

  -- The tenant's policy, if it is known, changed by `g`.
  unfoldable pub reschedule :
      (tenant_id : Bytes) (g : TenantPolicy → TenantPolicy) → WfqScheduler f → WfqScheduler f
  reschedule id g s = elim (policy id s) [ none ↦ s | some p ↦ update_policy clock (g p) s ]

  -- What a throttle makes of a policy.
  unfoldable pub reduced : TenantPolicy → TenantPolicy
  reduced p =
      let applied_rate =
        max (as_u32 (f.mul (f.of_nat p.rate_per_sec) config.reduction_factor))
          config.min_rate_floor in
      record p {
        rate_per_sec = applied_rate;
        burst_tokens = max applied_rate 1;
        max_inflight = f.truncate (f.mul (f.of_nat p.max_inflight) config.reduction_factor);
      }

  -- The state of a tenant that is throttled now.
  unfoldable pub state_at :
      (now : ℕ) (reason : Bytes) (tenant_id : Bytes) → TenantPolicy → ThrottleState
  state_at now reason id p = record {
    tenant_id = id;
    throttled = true;
    reason = reason;
    original_rate = p.rate_per_sec;
    applied_rate = (reduced p).rate_per_sec;
    triggered_at_ms = now;
    cooldown_until_ms = (now + config.cooldown_secs * 1000 % 2 ^ 64) % 2 ^ 64;
  }

  -- The two records have the same fields.
  abbrev pub persisted : ThrottleState → PersistedThrottle
  persisted s = record {
    tenant_id = s.tenant_id;
    throttled = s.throttled;
    reason = s.reason;
    original_rate = s.original_rate;
    applied_rate = s.applied_rate;
    triggered_at_ms = s.triggered_at_ms;
    cooldown_until_ms = s.cooldown_until_ms;
  }

  unfoldable pub apply_throttle :
      (tenant_id reason : Bytes) (now : ℕ) → AutoThrottle w f → Run (AutoThrottle w f)
  apply_throttle id reason now t = elim (policy id t.scheduler) [
    | none ↦ returns t
    | some p ↦
        let state = state_at now reason id p in
        and_run (persist_throttle w bin (persisted state) t.db) (λ db. returns (record t {
          scheduler = update_policy clock (reduced p) t.scheduler;
          db = db;
          states = insert id state t.states;
        }))
  ]

  -- The policy of a tenant that is released; `max_inflight` stays as it is.
  unfoldable pub restored : (rate : ℕ) → TenantPolicy → TenantPolicy
  restored rate p = record p { rate_per_sec = rate; burst_tokens = rate }

  unfoldable pub release_throttle :
      (tenant_id : Bytes) (original_rate : ℕ) → AutoThrottle w f → Run (AutoThrottle w f)
  release_throttle id original_rate t =
      let scheduler = reschedule id (restored original_rate) t.scheduler in
      and_run (clear_throttle w bin id t.db)
        (λ db. remove_state id (record t { scheduler = scheduler; db = db }))

  -- The reference is dropped before the release.
  unfoldable pub force_release : (tenant_id : Bytes) → AutoThrottle w f → Run (AutoThrottle w f)
  force_release id t = elim (get id t.states) [
    | some state ↦ release_throttle id state.original_rate t
    | none ↦ and_run (clear_throttle w bin id t.db) (λ db. returns (record t { db = db }))
  ]

  unfoldable pub should_throttle : TenantStats f → AutoThrottle w f → Bool
  should_throttle stats t =
      f.gt stats.burst_score config.burst_threshold
      || f.gt stats.backlog_ratio config.backlog_threshold
      || is_spike f stats.tenant_id stats.arrival_rate t.baselines

  unfoldable pub reason_of : TenantStats f → Bytes
  reason_of stats =
      if f.gt stats.burst_score config.burst_threshold
      then burst_score_exceeded
      else if f.gt stats.backlog_ratio config.backlog_threshold
      then backlog_threshold_exceeded
      else rate_spike_detected

  -- `spike_threshold(..).unwrap_or(f64::MAX)`
  abbrev pub threshold_or_max : Option f.Num → f.Num
  threshold_or_max none = f.max_value
  threshold_or_max (some x) = x

  -- The four conditions of a release.
  unfoldable pub may_release : (now : ℕ) → TenantStats f → ThrottleState → AutoThrottle w f → Bool
  may_release now stats existing t =
      leb existing.cooldown_until_ms now
      && f.gt (f.mul config.burst_threshold (ratio f 1 2)) stats.burst_score
      && f.gt (f.mul config.backlog_threshold (ratio f 7 10)) stats.backlog_ratio
      && f.gt
          (f.mul (threshold_or_max (spike_threshold_of f stats.tenant_id t.baselines))
            (ratio f 7 10))
          stats.arrival_rate

  -- The rest of the loop's body for a tenant that is not throttled.
  unfoldable pub consider : (now : ℕ) → TenantStats f → AutoThrottle w f → Run (AutoThrottle w f)
  consider now stats t =
      if should_throttle stats t
      then apply_throttle stats.tenant_id (reason_of stats) now t
      else returns t

  -- The body of the loop. The reference `existing` is held to the end of its block.
  unfoldable pub evaluate_one :
      (now : ℕ) → TenantStats f → AutoThrottle w f → Run (AutoThrottle w f)
  evaluate_one now stats t = elim (get stats.tenant_id t.states) [
    | none ↦ consider now stats t
    | some existing ↦
        if existing.throttled
        then (if may_release now stats existing t
            then and_run
                (release_throttle stats.tenant_id existing.original_rate
                  (record t { held = some stats.tenant_id }))
                (λ u. returns (record u { held = none }))
            else returns t)
        else consider now stats t
  ]

  unfoldable pub evaluate :
      (now : ℕ) → List (TenantStats f) → AutoThrottle w f → Run (AutoThrottle w f)
  evaluate now [] t = returns t
  evaluate now (stats ∷ all_stats) t = and_run (evaluate_one now stats t) (evaluate now all_stats)

module _ {w : World} {f : F64} where
  unfoldable pub snapshot : Bytes → AutoThrottle w f → Option ThrottleState
  snapshot id t = get id t.states

  unfoldable pub all_snapshots : AutoThrottle w f → List ThrottleState
  all_snapshots t = map (λ e. e.1) t.states
