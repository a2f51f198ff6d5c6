-- ===== src/Throttle/Restore.antt =====
-- throttle.rs: `restore_from_store`.
use rocksqueue.Base.{ℕ, ◌+◌, true, List, [], ◌∷◌, max, ltb, if◌then◌else◌}
use rocksqueue.Dash.{insert}
use rocksqueue.Float.{F64}
use rocksqueue.Rocks.World.{World}
use rocksqueue.Run.{Run, returns, and_run}
use rocksqueue.Scheduler.{TenantPolicy}
use rocksqueue.Store.{PersistedThrottle, Bincode, clear_throttle, load_all_throttles}
use rocksqueue.Throttle.{AutoThrottle, ThrottleConfig, ThrottleState, reschedule}

module _ (w : World) {f : F64} (bin : Bincode f) (config : ThrottleConfig f) (clock : ℕ → ℕ) where
  -- The policy of a throttle that is applied again; `max_inflight` stays as it is.
  unfoldable pub reapplied : PersistedThrottle → TenantPolicy → TenantPolicy
  reapplied r p = record p { rate_per_sec = r.applied_rate; burst_tokens = max r.applied_rate 1 }

  unfoldable pub state_again : PersistedThrottle → ThrottleState
  state_again r = record {
    tenant_id = r.tenant_id;
    throttled = true;
    reason = r.reason;
    original_rate = r.original_rate;
    applied_rate = r.applied_rate;
    triggered_at_ms = r.triggered_at_ms;
    cooldown_until_ms = r.cooldown_until_ms;
  }

  -- `times i` is the reading of the clock for the i-th throttled row.
  unfoldable pub restore_loop :
      (times : ℕ → ℕ) (i : ℕ) → List PersistedThrottle → AutoThrottle w f → Run (AutoThrottle w f)
  restore_loop times i [] t = returns t
  restore_loop times i (r ∷ rows) t =
      let scheduler = reschedule w bin config clock r.tenant_id (reapplied r) t.scheduler in
      let applied = restore_loop times (i + 1) rows (record t {
        scheduler = scheduler;
        states = insert r.tenant_id (state_again r) t.states;
      }) in
      let cleared =
        and_run (clear_throttle w bin r.tenant_id t.db)
          (λ db. restore_loop times (i + 1) rows (record t { db = db })) in
      let skipped = restore_loop times i rows t in
      if r.throttled
      then (if ltb (times i) r.cooldown_until_ms then applied else cleared)
      else skipped

  unfoldable pub restore_from_store : (times : ℕ → ℕ) → AutoThrottle w f → Run (AutoThrottle w f)
  restore_from_store times t =
      and_run (load_all_throttles w bin t.db) (λ rows. restore_loop times 0 rows t)
