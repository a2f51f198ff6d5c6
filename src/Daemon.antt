-- ===== src/Daemon.antt =====
-- stats_daemon.rs: one cycle of the daemon, and stats.rs: `warm_from_store`. The readings of the
-- clock in a cycle are its arguments.
use rocksqueue.Base.{
  ℕ, ◌%◌, ◌==◌, false, Option, none, some, List, [], ◌∷◌, map, ok, err, if◌then◌else◌,
}
use rocksqueue.Baseline.{TenantBaseline, BaselinePromotion, ratio, update}
use rocksqueue.Bytes.{Bytes}
use rocksqueue.Dash.{Dash, get, insert, alter}
use rocksqueue.Float.{F64}
use rocksqueue.Rocks.World.{World}
use rocksqueue.Run.{Run, returns, and_run}
use rocksqueue.Stats.{TenantStats, Collector, refresh, record_backlog}
use rocksqueue.Store.{Bincode, PersistedStats, flush_stats, flush_baselines, load_all_stats}
use rocksqueue.Store.Baselines.{flush_registry}
use rocksqueue.Tenant.Lifecycle.{list_tenants}
use rocksqueue.Tenant.State.{Registry, depth}
use rocksqueue.Throttle.{AutoThrottle, ThrottleConfig, evaluate}

module _ {f : F64} where
  -- The statistics of a tenant that are warm from the store.
  unfoldable pub warm : PersistedStats f → TenantStats f → TenantStats f
  warm p s = record s {
    arrival_rate = p.arrival_rate;
    processing_rate = p.processing_rate;
    avg_task_latency = p.avg_task_latency;
    burst_score = p.burst_score;
    backlog_ratio = p.backlog_ratio;
    total_enqueued = p.total_enqueued;
    total_acked = p.total_acked;
    total_nacked = p.total_nacked;
    stats_version = p.stats_version;
    is_new = false;
  }

  unfoldable pub warm_loop : List (PersistedStats f) → Collector f → Collector f
  warm_loop [] c = c
  warm_loop (p ∷ rows) c =
      warm_loop rows (alter p.tenant_id (λ s. record s { stats = warm p s.stats }) c)

  unfoldable pub all_stats : Collector f → List (TenantStats f)
  all_stats c = map (λ e. e.1.stats) c

  -- `update` of the registry of baselines: `get_mut(..).and_then(..)`.
  unfoldable pub update_baseline :
      (now : ℕ) (tenant_id : Bytes) (arrival_rate : f.Num)
      → Dash (TenantBaseline f)
      → Option (BaselinePromotion f) × Dash (TenantBaseline f)
  update_baseline now id rate m = elim (get id m) [
    | none ↦ (none, m)
    | some b ↦
        let r = update f now rate (ratio f 2 10) (ratio f 1 100) (f.of_nat 3) b in
        (r.0, insert id r.1 m)
  ]

module _ (w : World) {f : F64} (bin : Bincode f) where
  unfoldable pub warm_from_store : (now : ℕ) → w.Db → Collector f → Run (Collector f)
  warm_from_store now db c =
      and_run (load_all_stats w bin now db) (λ rows. returns (warm_loop rows c))

-- Step 2: the backlog of every tenant and queue; an error is logged.
module _ (w : World) {f : F64} (registry : Registry w) where
  unfoldable pub backlog_queues : (tenant_id : Bytes) → List Bytes → Collector f → Collector f
  backlog_queues tenant_id [] c = c
  backlog_queues tenant_id (queue ∷ queues) c =
      backlog_queues tenant_id queues (elim (depth w tenant_id queue registry).0 [
        | ok (pending, inflight, _) ↦ record_backlog tenant_id pending inflight c
        | err e ↦ c
      ])

  unfoldable pub backlog_tenants : List Bytes → List Bytes → Collector f → Collector f
  backlog_tenants [] queues c = c
  backlog_tenants (tenant_id ∷ tenants) queues c =
      backlog_tenants tenants queues (backlog_queues tenant_id queues c)

module _ (w : World) {f : F64} (bin : Bincode f) where
  -- Step 3: a promoted baseline is stored at once.
  unfoldable pub update_baselines :
      (now : ℕ)
      → List (TenantStats f)
      → Dash (TenantBaseline f) × w.Db
      → Run (Dash (TenantBaseline f) × w.Db)
  update_baselines now [] st = returns st
  update_baselines now (s ∷ snapshots) (m, db) =
      let r = update_baseline now s.tenant_id s.arrival_rate m in
      let stored : Run w.Db = elim r.0 [
        | none ↦ returns db
        | some promotion ↦ elim (get s.tenant_id r.1) [
          | none ↦ returns db
          | some b ↦ flush_baselines w bin now (b ∷ []) db
        ]
      ] in
      and_run stored (λ db'. update_baselines now snapshots (r.1, db'))

  -- A cycle. The throttle holds the baselines and the database that the cycle shares with it;
  -- the number of the cycle is counted from 1.
  unfoldable pub cycle :
      (config : ThrottleConfig f) (clock : ℕ → ℕ) (now count : ℕ) (queues : List Bytes)
      (registry : Registry w)
      → Collector f × AutoThrottle w f
      → Run (Collector f × AutoThrottle w f)
  cycle config clock now count queues registry (c, t) =
      let c' = backlog_tenants w registry (list_tenants w registry) queues (refresh c) in
      let snapshots = all_stats c' in
      and_run (update_baselines now snapshots (t.baselines, t.db)) (λ st.
        and_run
          (evaluate w bin config clock now snapshots (record t { baselines = st.0; db = st.1 }))
          (λ u.
            if count % 10 == 0
            then and_run (flush_stats w bin now snapshots u.db) (λ db.
              and_run (flush_registry w bin now u.baselines db)
                (λ db'. returns (c', record u { db = db' })))
            else returns (c', u)))
