-- ===== src/Startup/Policies.antt =====
-- The rates that tenants have when the process has started.
use rocksqueue.Base.{
  ℕ, ◌≡◌, refl, sym, ap, ◌∙◌, Bool, true, false, ◌||◌, Option, none, some, List, [], ◌∷◌, map,
  Option-cases, Bool-cases, inl, inr, if◌then◌else◌, arith,
}
use mathlib.Core.Option.{map as option_map}
use rocksqueue.Bytes.{Bytes, beq}
use rocksqueue.Bytes.Order.{beq_iff}
use rocksqueue.Baseline.{TenantBaseline}
use rocksqueue.Dash.{Dash, get, get-insert}
use rocksqueue.Float.{F64}
use rocksqueue.Grpc.Tenants.{sched_policy}
use rocksqueue.Policy.{NamespacePolicy}
use rocksqueue.Rocks.World.{World, FaultFree}
use rocksqueue.Run.{Run, returns, and_run}
use rocksqueue.Scheduler.{WfqScheduler, TenantPolicy, policy, new_tenant}
use rocksqueue.Scheduler
use rocksqueue.Stats.{Collector}
use rocksqueue.Stats
use rocksqueue.Store.{Bincode, load_all_stats, with_cf, load_rows, decayed, stats_prefix}
use rocksqueue.Store.Baselines.{register_baseline, load_baseline_ok}
use rocksqueue.Store.Throttles.{HasThrottleRows}
use rocksqueue.Daemon.{warm_from_store, warm_loop}
use rocksqueue.Tenant.Lifecycle.{list_tenants, get_policy, policy_get}
use rocksqueue.Tenant.Names.{cf_system}
use rocksqueue.Tenant.Settle.{elem}
use rocksqueue.Tenant.State.{Registry, Policies}
use rocksqueue.Throttle.{AutoThrottle, ThrottleConfig}
use rocksqueue.Throttle.Restored.{restore_unregistered}
use rocksqueue.Startup.{register_tenant, register_tenants, wired, restore}

policy-register :
    {f : F64} (clock : ℕ → ℕ) (p : TenantPolicy) (j : Bytes) (s : WfqScheduler f)
    → policy j (Scheduler.register clock p s) ≡ (if beq p.tenant_id j then some p else policy j s)
unfolding policy Scheduler.register new_tenant
policy-register clock p j s =
    rw (policy, Scheduler.register, get-insert p.tenant_id j (new_tenant clock p) s.tenants)
      (elim (Bool-cases (beq p.tenant_id j)) [ inl q ↦ rw q refl | inr q ↦ rw (policy, q) refl ])

policy_get-unlisted :
    (j : Bytes) (ps : Policies) → elem j (map (λ e. e.0) ps) ≡ false → policy_get j ps ≡ none
unfolding policy_get elem
policy_get-unlisted j [] h = refl
policy_get-unlisted j ((k, p) ∷ ps) h = ground (arith, policy_get-unlisted j ps)

-- The policy that the scheduler has for a tenant once the registry's has been registered.
abbrev chosen : Option NamespacePolicy → Bytes → Option TenantPolicy → Option TenantPolicy
chosen none id old = old
chosen (some p) id old = some (sched_policy id p)

chosen_twice :
    (g : Option NamespacePolicy) (j : Bytes) (a b : Option TenantPolicy) (x e : Bool)
    → b ≡ (if x then chosen g j a else a)
    → (if e then chosen g j b else b) ≡ (if x || e then chosen g j a else a)
chosen_twice none j a b x e h = ground arith
chosen_twice (some p) j a b x e h = ground arith

-- Without a policy to start with the scheduler has what the registry lists.
chosen-listed :
    (j : Bytes) (ps : Policies) (old : Option TenantPolicy)
    → old ≡ none
    → (if elem j (map (λ e. e.0) ps) then chosen (policy_get j ps) j old else old)
      ≡ option_map (sched_policy j) (policy_get j ps)
chosen-listed j ps old h = elim (Bool-cases (elem j (map (λ e. e.0) ps))) [
  | inl e ↦
      rw e
        (elim (Option-cases (policy_get j ps)) [ inl g ↦ rw (g, h) refl | inr (p, g) ↦ rw g refl ])
  | inr e ↦ rw (e, policy_get-unlisted j ps e, h) refl
]

then_returns :
    {A : Type 0} {B : Type 0} (r : Run A) (g : A → B) (a : A)
    → r ≡ returns a
    → (b : B) × (and_run r (λ x. returns (g x)) ≡ returns b)
then_returns r g a h = (g a, ap (λ x. and_run x (λ x. returns (g x))) h)

module _ {w : World} (ff : FaultFree w) {f : F64} (bin : Bincode f) (config : ThrottleConfig f)
    (clock : Bytes → ℕ → ℕ) (registry : Registry w) where
  -- What registering tenants does to the scheduler, where `listed` tells who they are.
  record Registered (listed : Bytes → Bool) (st st' : Collector f × AutoThrottle w f) : Type 0 where
    policies :
        (j : Bytes)
        → policy j st'.1.scheduler ≡ (
            if listed j
            then chosen (get_policy w registry j) j (policy j st.1.scheduler)
            else policy j st.1.scheduler)
    has_system : w.has_cf st'.1.db cf_system ≡ true

  register_baseline_ok :
      (now : ℕ) (id : Bytes) (m : Dash (TenantBaseline f)) (db : w.Db)
      → w.has_cf db cf_system ≡ true
      → (m' : Dash (TenantBaseline f)) × (register_baseline w bin now id (f.of_nat 0) m db
          ≡ returns m')
  unfolding register_baseline
  register_baseline_ok now id m db h = then_returns _ _ _ (load_baseline_ok ff bin id db h)

  warm_from_store_ok :
      (now : ℕ) (db : w.Db) (c : Collector f)
      → w.has_cf db cf_system ≡ true
      → (c' : Collector f) × (warm_from_store w bin now db c ≡ returns c')
  unfolding warm_from_store load_all_stats with_cf
  warm_from_store_ok now db c h =
      let rows =
        map (decayed w bin now)
          (load_rows bin.deserialize_stats stats_prefix (w.scan_from db cf_system stats_prefix)) in
      (warm_loop rows c, rw h refl)

  register_tenant_lem :
      (id : Bytes) (st : Collector f × AutoThrottle w f)
      → w.has_cf st.1.db cf_system ≡ true
      → (st' : Collector f × AutoThrottle w f) × (register_tenant w bin config clock registry id st
          ≡ returns st')
        × Registered (beq id) st st'
  unfolding register_tenant sched_policy
  register_tenant_lem id (c, t) h = elim (Option-cases (get_policy w registry id)) [
    | inl e ↦ (
      (c, t),
      rw (register_tenant, e) refl,
      record {
        policies = λ j. elim (Bool-cases (beq id j)) [
          | inl q ↦ rw q (
              sym (
                ap (λ g. chosen g j (policy j t.scheduler))
                  (ap (get_policy w registry) (sym ((beq_iff id j).0 q)) ∙ e)))
          | inr q ↦ rw q refl
        ];
        has_system = h;
      },
    )
    | inr (p, e) ↦
        let b = register_baseline_ok (clock id 3) id t.baselines t.db h in
        (
          (
            Stats.register (clock id 2) id c,
            record t {
              scheduler = Scheduler.register (clock id) (sched_policy id p) t.scheduler;
              baselines = b.0;
            },
          ),
          rw (register_tenant, e) (rw b.1 refl),
          record {
            policies = λ j.
                policy-register (clock id) (sched_policy id p) j t.scheduler
                ∙ elim (Bool-cases (beq id j)) [
                  | inl q ↦ rw q (
                      ap (λ k. some (sched_policy k p)) ((beq_iff id j).0 q)
                      ∙ sym (
                          ap (λ g. chosen g j (policy j t.scheduler))
                            (ap (get_policy w registry) (sym ((beq_iff id j).0 q)) ∙ e)))
                  | inr q ↦ rw q refl
                ];
            has_system = h;
          },
        )
  ]

  register_tenants_lem :
      (ids : List Bytes) (st : Collector f × AutoThrottle w f)
      → w.has_cf st.1.db cf_system ≡ true
      → (st' : Collector f × AutoThrottle w f) × (register_tenants w bin config clock registry ids
            st
          ≡ returns st')
        × Registered (λ j. elem j ids) st st'
  unfolding register_tenants elem
  register_tenants_lem [] st h = (st, refl, record { policies = λ j. refl; has_system = h })
  register_tenants_lem (id ∷ ids) st h =
      let a = register_tenant_lem id st h in
      let r = register_tenants_lem ids a.0 a.2.has_system in
      (
        r.0,
        ap (λ x. and_run x (register_tenants w bin config clock registry ids)) a.1 ∙ r.1,
        record {
          policies = λ j.
              r.2.policies j
              ∙ chosen_twice (get_policy w registry j) j (policy j st.1.scheduler)
                  (policy j a.0.1.scheduler) (beq id j) (elem j ids) (a.2.policies j);
          has_system = r.2.has_system;
        },
      )

  unknown : (j : Bytes) → policy j (wired w bin config clock registry).scheduler ≡ none
  unfolding policy get
  unknown j = refl

  -- On a database where no call fails, the start of the process succeeds: the scheduler then has
  -- for every tenant exactly the rate, burst, weight and `max_inflight` of the registry's policy, and
  -- no tenant that the registry does not know, whatever throttles are stored and still cooling
  -- down.
  pub restore_lem :
      (times : ℕ → ℕ) (now : ℕ)
      → HasThrottleRows ff bin registry.db
      → (r : Collector f × AutoThrottle w f) × (restore w bin config clock registry times now
          ≡ returns r)
        × ((j : Bytes)
            → policy j r.1.scheduler ≡ option_map (sched_policy j) (get_policy w registry j))
  unfolding restore list_tenants get_policy
  restore_lem times now h =
      let t =
        restore_unregistered ff bin config (clock []) times (wired w bin config clock registry) refl
          h in
      let r = register_tenants_lem (list_tenants w registry) ([], t.0) t.3.has_system in
      let c = warm_from_store_ok now r.0.1.db r.0.0 r.2.has_system in
      (
        (c.0, r.0.1),
        rw t.1 (rw r.1 (rw c.1 refl)),
        λ j.
            r.2.policies j
            ∙ chosen-listed j registry.policies (policy j t.0.scheduler)
                (ap (policy j) t.2 ∙ unknown j),
      )
