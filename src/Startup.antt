-- ===== src/Startup.antt =====
-- main.rs: what the process remembers when it starts, from opening the registry to the daemon.
pub mod Policies
use rocksqueue.Base.{ℕ, Option, none, some, List, [], ◌∷◌}
use rocksqueue.Bytes.{Bytes}
use rocksqueue.Daemon.{warm_from_store}
use rocksqueue.Float.{F64}
use rocksqueue.Grpc.Tenants.{sched_policy}
use rocksqueue.Rocks.World.{World}
use rocksqueue.Run.{Run, returns, and_run}
use rocksqueue.Scheduler
use rocksqueue.Stats.{Collector}
use rocksqueue.Stats
use rocksqueue.Store.{Bincode}
use rocksqueue.Store.Baselines.{register_baseline}
use rocksqueue.Tenant.Lifecycle.{list_tenants, get_policy}
use rocksqueue.Tenant.State.{Registry}
use rocksqueue.Throttle.{AutoThrottle, ThrottleConfig}
use rocksqueue.Throttle.Restore.{restore_from_store}

-- `clock id` gives the readings of the clocks while the tenant `id` is registered, `times` those
-- during the restore of the throttles, and `now` that of the load of the statistics.
module _ (w : World) {f : F64} (bin : Bincode f) (config : ThrottleConfig f) (clock : Bytes → ℕ → ℕ)
    (registry : Registry w) where
  unfoldable pub register_tenant :
      (tenant_id : Bytes) → Collector f × AutoThrottle w f → Run (Collector f × AutoThrottle w f)
  register_tenant id (c, t) = elim (get_policy w registry id) [
    | none ↦ returns (c, t)
    | some policy ↦
        and_run (register_baseline w bin (clock id 3) id (f.of_nat 0) t.baselines t.db) (λ m.
          returns (
            Stats.register (clock id 2) id c,
            record t {
              scheduler = Scheduler.register (clock id) (sched_policy id policy) t.scheduler;
              baselines = m;
            },
          ))
  ]

  unfoldable pub register_tenants :
      List Bytes → Collector f × AutoThrottle w f → Run (Collector f × AutoThrottle w f)
  register_tenants [] st = returns st
  register_tenants (id ∷ restored) st = and_run (register_tenant id st) (register_tenants restored)

  -- The throttle and what it shares before anything is restored.
  abbrev pub wired : AutoThrottle w f
  wired = record {
    states = [];
    scheduler = record { tenants = []; virtual_time = 0 };
    baselines = [];
    db = registry.db;
    held = none;
  }

  unfoldable pub restore : (times : ℕ → ℕ) (now : ℕ) → Run (Collector f × AutoThrottle w f)
  restore times now = and_run (restore_from_store w bin config (clock []) times wired) (λ t.
      and_run (register_tenants (list_tenants w registry) ([], t))
        (λ st. and_run (warm_from_store w bin now st.1.db st.0) (λ c. returns (c, st.1))))
