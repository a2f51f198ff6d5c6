-- ===== src/Throttle/Applied.antt =====
-- What a throttle does to the scheduler and to the records of the throttle.
use rocksqueue.Base.{
  ◌+◌, ◌*◌, ◌-◌, ◌%◌, ◌^◌, min, max, true, ℕ, ◌≡◌, refl, ap, ◌∙◌, some, if◌then◌else◌, Option-cases,
  Bool-cases, inl, inr,
}
use rocksqueue.Bytes.{Bytes, beq}
use rocksqueue.Dash.{get, insert, get-insert, get-alter}
use rocksqueue.Float.{F64}
use rocksqueue.Rocks.World.{World, FaultFree}
use rocksqueue.Run.{returns}
use rocksqueue.Scheduler.{TenantPolicy, WfqScheduler, policy, update_policy}
use rocksqueue.Store.{Bincode}
use rocksqueue.Store.Throttles.{ReadsBack, HasThrottleRows, ThrottleSet, persist_throttle_lem}
use rocksqueue.Throttle.{
  AutoThrottle, ThrottleState, ThrottleConfig, reschedule, reduced, state_at, persisted,
  apply_throttle,
}

-- A tenant whose policy is known has the new policy afterwards, and the others have theirs.
pub policy-update_policy :
    {f : F64} (clock : ℕ → ℕ) (p old : TenantPolicy) (id : Bytes) (s : WfqScheduler f)
    → policy p.tenant_id s ≡ some old
    → policy id (update_policy clock p s) ≡ (if beq p.tenant_id id then some p else policy id s)
unfolding policy update_policy
policy-update_policy clock p old id s h = elim (Option-cases (get p.tenant_id s.tenants)) [
  | inl e ↦ cc (rw (policy, e) at h)
  | inr (x, e) ↦
      rw (update_policy, e)
        (rw (policy, get-alter p.tenant_id id (λ y. record y { policy = p }) x s.tenants e)
          (elim (Bool-cases (beq p.tenant_id id)) [
            | inl q ↦ rw q refl
            | inr q ↦ rw (policy, q) refl
          ]))
]

pub reschedule_known :
    (w : World) {f : F64} (bin : Bincode f) (config : ThrottleConfig f) (clock : ℕ → ℕ) (id : Bytes)
    (g : TenantPolicy → TenantPolicy) (p : TenantPolicy) (s : WfqScheduler f)
    → policy id s ≡ some p
    → reschedule w bin config clock id g s ≡ update_policy clock (g p) s
unfolding reschedule
reschedule_known w bin config clock id g p s h = rw (reschedule, h) refl

module _ {w : World} (ff : FaultFree w) {f : F64} (bin : Bincode f) (back : ReadsBack bin)
    (config : ThrottleConfig f) (clock : ℕ → ℕ) where
  -- The policy of a throttled tenant: `reduction_factor` of the rate as a `u32`, raised to the
  -- floor where it is below, that many burst tokens and at least one, and `reduction_factor` of the
  -- inflight tasks; the weight stays.
  pub record Lowered (p p' : TenantPolicy) : Type 0 where
    pub same_tenant : p'.tenant_id ≡ p.tenant_id
    pub same_weight : p'.weight ≡ p.weight
    pub rate :
        p'.rate_per_sec
        ≡ max
            (min
              (f.truncate (f.mul (f.of_nat p.rate_per_sec) config.reduction_factor))
              (2 ^ 32 - 1))
            config.min_rate_floor
    pub burst : p'.burst_tokens ≡ max p'.rate_per_sec 1
    pub room :
        p'.max_inflight ≡ f.truncate (f.mul (f.of_nat p.max_inflight) config.reduction_factor)

  -- The state of a tenant that is throttled at `now` from the policy `p` to `p'`.
  abbrev pub throttled_at : (id reason : Bytes) (now : ℕ) (p p' : TenantPolicy) → ThrottleState
  throttled_at id reason now p p' = record {
    tenant_id = id;
    throttled = true;
    reason = reason;
    original_rate = p.rate_per_sec;
    applied_rate = p'.rate_per_sec;
    triggered_at_ms = now;
    cooldown_until_ms = (now + config.cooldown_secs * 1000 % 2 ^ 64) % 2 ^ 64;
  }

  -- What a throttle of the tenant `id`, whose policy was `p` and is `p'`, has done.
  pub record Applied (id reason : Bytes) (now : ℕ) (p p' : TenantPolicy) (t t' : AutoThrottle w f)
      : Type 0 where
    pub lowered : Lowered p p'
    pub policies :
        (j : Bytes) → policy j t'.scheduler ≡ (if beq id j then some p' else policy j t.scheduler)
    -- the state is in memory and, field by field, in the store
    pub remembered :
        (j : Bytes)
        → get j t'.states
          ≡ (if beq id j then some (throttled_at id reason now p p') else get j t.states)
    pub stored :
        ThrottleSet ff bin id
          (some (record {
            tenant_id = id;
            throttled = true;
            reason = reason;
            original_rate = p.rate_per_sec;
            applied_rate = p'.rate_per_sec;
            triggered_at_ms = now;
            cooldown_until_ms = (now + config.cooldown_secs * 1000 % 2 ^ 64) % 2 ^ 64;
          }))
          t.db
          t'.db
    pub not_held : t'.held ≡ t.held

  -- On a database where no call fails, throttling a tenant whose policy is known, under its own
  -- identifier, succeeds. The scheduler's policy of this tenant alone is new: its rate is
  -- `reduction_factor` of the rate before, or the floor if that is more, which can be more than the rate
  -- before; its burst is the rate and at least 1, its `max_inflight` is `reduction_factor` of the
  -- one before, and its weight stays. The state, with both rates, the reason, the time and the
  -- end of the cooldown, is in memory and in the store, for this tenant alone.
  pub apply_throttle_lem :
      (id reason : Bytes) (now : ℕ) (p : TenantPolicy) (t : AutoThrottle w f)
      → policy id t.scheduler ≡ some p
      → p.tenant_id ≡ id
      → HasThrottleRows ff bin t.db
      → (t' : AutoThrottle w f) × (p' : TenantPolicy) × (apply_throttle w bin config clock id reason
            now t
          ≡ returns t')
        × Applied id reason now p p' t t'
  unfolding apply_throttle reduced state_at
  apply_throttle_lem id reason now p t h own rows =
      let state = state_at w bin config clock now reason id p in
      let p' = reduced w bin config clock p in
      let s = persist_throttle_lem ff bin back (persisted w bin config clock state) t.db rows in
      let known : policy p'.tenant_id t.scheduler ≡ some p =
        ap (λ i. policy i t.scheduler) own ∙ h in
      (
        record t {
          scheduler = update_policy clock p' t.scheduler;
          db = s.0;
          states = insert id state t.states;
        },
        p',
        rw (apply_throttle, h, s.1) refl,
        record {
          lowered = record {
            same_tenant = refl;
            same_weight = refl;
            rate = refl;
            burst = refl;
            room = refl;
          };
          policies = λ j.
              policy-update_policy clock p' p j t.scheduler known
              ∙ ap (λ i. if beq i j then some p' else policy j t.scheduler) own;
          remembered = λ j. get-insert id j state t.states;
          stored = s.2;
          not_held = refl;
        },
      )
