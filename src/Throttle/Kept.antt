-- ===== src/Throttle/Kept.antt =====
-- One step of an evaluation, for a tenant that is not released.
use rocksqueue.Base.{
  ℕ, ◌+◌, ◌*◌, ◌%◌, ◌^◌, ◌≤◌, ◌<◌, ◌≡◌, refl, sym, ap, ◌∙◌, true, false, some, arith, Option-cases,
  Bool-cases, inl, inr, ◌⊎◌,
}
use rocksqueue.Baseline.{TenantBaseline, spike_threshold_of}
use rocksqueue.Bytes.{Bytes, beq}
use rocksqueue.Bytes.Order.{beq_iff}
use rocksqueue.Dash.{Dash, get, insert, get-insert}
use rocksqueue.Float.{F64}
use rocksqueue.Rocks.World.{World, FaultFree}
use rocksqueue.Run.{returns}
use rocksqueue.Scheduler.{policy, update_policy}
use rocksqueue.Stats.{TenantStats}
use rocksqueue.Store.{Bincode}
use rocksqueue.Store.Throttles.{ReadsBack, HasThrottleRows, persist_throttle_lem}
use rocksqueue.Throttle.{
  AutoThrottle, ThrottleConfig, ThrottleState, reduced, state_at, persisted, apply_throttle,
  reason_of, should_throttle, may_release, threshold_or_max, consider, evaluate_one,
}

module _ {w : World} (ff : FaultFree w) {f : F64} (bin : Bincode f) (back : ReadsBack bin)
    (config : ThrottleConfig f) (clock : ℕ → ℕ) (now : ℕ) where
  -- Below the three limits: half the threshold of the burst score, 7/10 of that of the backlog, and
  -- 7/10 of the spike threshold, or of the greatest number where there is none.
  abbrev pub IsCalm : TenantStats f → Dash (TenantBaseline f) → Type 0
  IsCalm stats baselines =
      (f.gt (f.mul config.burst_threshold (f.div (f.of_nat 1) (f.of_nat 2))) stats.burst_score
        ≡ true)
      × (f.gt (f.mul config.backlog_threshold (f.div (f.of_nat 7) (f.of_nat 10)))
            stats.backlog_ratio
          ≡ true)
      × (f.gt
            (f.mul
              (threshold_or_max w bin config clock (spike_threshold_of f stats.tenant_id baselines))
              (f.div (f.of_nat 7) (f.of_nat 10)))
            stats.arrival_rate
          ≡ true)

  -- A throttle that is still cooling down, or a tenant that is at one of the limits.
  abbrev pub MustStay : TenantStats f → ThrottleState → Dash (TenantBaseline f) → Type 0
  MustStay stats state baselines =
      (now < state.cooldown_until_ms)
      ⊎ (f.gt (f.mul config.burst_threshold (f.div (f.of_nat 1) (f.of_nat 2))) stats.burst_score
          ≡ false)
      ⊎ (f.gt (f.mul config.backlog_threshold (f.div (f.of_nat 7) (f.of_nat 10)))
            stats.backlog_ratio
          ≡ false)
      ⊎ (f.gt
            (f.mul
              (threshold_or_max w bin config clock (spike_threshold_of f stats.tenant_id baselines))
              (f.div (f.of_nat 7) (f.of_nat 10)))
            stats.arrival_rate
          ≡ false)

  pub calm_may_release :
      (stats : TenantStats f) (state : ThrottleState) (t : AutoThrottle w f)
      → state.cooldown_until_ms ≤ now
      → IsCalm stats t.baselines
      → may_release w bin config clock now stats state t ≡ true
  unfolding may_release
  calm_may_release stats state t c h = ground (arith, c, h.0, h.1, h.2)

  pub stay_may_release :
      (stats : TenantStats f) (state : ThrottleState) (t : AutoThrottle w f)
      → MustStay stats state t.baselines
      → may_release w bin config clock now stats state t ≡ false
  unfolding may_release
  stay_may_release stats state t h = ground (arith, h)

  -- The end of the cooldown of a throttle that is applied now.
  abbrev pub next_cooldown : ℕ
  next_cooldown = (now + config.cooldown_secs * 1000 % 2 ^ 64) % 2 ^ 64

  -- From `t` to `u` no throttle ended or changed, and those that are new are cooling down.
  pub record Kept (t u : AutoThrottle w f) : Type 0 where
    pub rows : HasThrottleRows ff bin u.db
    pub same_baselines : u.baselines ≡ t.baselines
    pub kept :
        (id : Bytes) (state : ThrottleState)
        → get id t.states ≡ some state
        → state.throttled ≡ true
        → get id u.states ≡ some state
    pub new :
        (id : Bytes) (state : ThrottleState)
        → get id u.states ≡ some state
        → (get id t.states ≡ some state) ⊎ (state.cooldown_until_ms ≡ next_cooldown)

  pub unchanged : (t : AutoThrottle w f) → HasThrottleRows ff bin t.db → Kept t t
  unchanged t rows = record {
    rows = rows;
    same_baselines = refl;
    kept = λ id state h _. h;
    new = λ id state h. inl h;
  }

  apply-Kept :
      (id reason : Bytes) (t : AutoThrottle w f)
      → ((state : ThrottleState) → get id t.states ≡ some state → state.throttled ≡ false)
      → HasThrottleRows ff bin t.db
      → (u : AutoThrottle w f) × (apply_throttle w bin config clock id reason now t ≡ returns u)
        × Kept t u
  unfolding apply_throttle state_at
  apply-Kept id reason t free rows = elim (Option-cases (policy id t.scheduler)) [
    | inl q ↦ (t, rw (apply_throttle, q) refl, unchanged t rows)
    | inr (p, q) ↦
        let state = state_at w bin config clock now reason id p in
        let s = persist_throttle_lem ff bin back (persisted w bin config clock state) t.db rows in
        (
          record t {
            scheduler = update_policy clock (reduced w bin config clock p) t.scheduler;
            db = s.0;
            states = insert id state t.states;
          },
          rw (apply_throttle, q, s.1) refl,
          record {
            rows = s.2.kept;
            same_baselines = refl;
            kept = λ j old h l. elim (Bool-cases (beq id j)) [
              | inr b ↦ get-insert id j state t.states ∙ rw b h
              | inl b ↦
                  let off = free old (ap (λ i. get i t.states) ((beq_iff id j).0 b) ∙ h) in
                  cc (off, l)
            ];
            new = λ j old h. elim (Bool-cases (beq id j)) [
              | inr b ↦ inl (rw b at (rw (get-insert id j state t.states) at h))
              | inl b ↦
                  let same : state ≡ old =
                    cc (rw b at (rw (get-insert id j state t.states) at h)) in
                  inr (sym (ap (λ x. x.cooldown_until_ms) same))
            ];
          },
        )
  ]

  consider-Kept :
      (stats : TenantStats f) (t : AutoThrottle w f)
      → ((state : ThrottleState)
          → get stats.tenant_id t.states ≡ some state
          → state.throttled ≡ false)
      → HasThrottleRows ff bin t.db
      → (u : AutoThrottle w f) × (consider w bin config clock now stats t ≡ returns u) × Kept t u
  unfolding consider
  consider-Kept stats t free rows = elim (Bool-cases (should_throttle w bin config clock stats t)) [
    | inl q ↦
        let a = apply-Kept stats.tenant_id (reason_of w bin config clock stats) t free rows in
        (a.0, rw (consider, q) a.1, a.2)
    | inr q ↦ (t, rw (consider, q) refl, unchanged t rows)
  ]

  -- A tenant that is not released, throttled or not.
  pub one-Kept :
      (stats : TenantStats f) (t : AutoThrottle w f)
      → ((state : ThrottleState)
          → get stats.tenant_id t.states ≡ some state
          → state.throttled ≡ true
          → may_release w bin config clock now stats state t ≡ false)
      → HasThrottleRows ff bin t.db
      → (u : AutoThrottle w f) × (evaluate_one w bin config clock now stats t ≡ returns u)
        × Kept t u
  unfolding evaluate_one
  one-Kept stats t stay rows = elim (Option-cases (get stats.tenant_id t.states)) [
    | inl q ↦
        let a = consider-Kept stats t (λ state h. cc (q, h)) rows in
        (a.0, rw (evaluate_one, q) a.1, a.2)
    | inr (x, q) ↦ elim (Bool-cases x.throttled) [
      | inl l ↦ (t, rw (evaluate_one, q) (rw (stay x q l) (rw l refl)), unchanged t rows)
      | inr l ↦
          let free = λ (state : ThrottleState) (h : get stats.tenant_id t.states ≡ some state).
            let same : x ≡ state = cc (q, h) in sym (ap (λ y. y.throttled) same) ∙ l in
          let a = consider-Kept stats t free rows in (a.0, rw (evaluate_one, q) (rw l a.1), a.2)
    ]
  ]
