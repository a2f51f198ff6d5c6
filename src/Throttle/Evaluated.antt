-- ===== src/Throttle/Evaluated.antt =====
-- Evaluations: which throttled tenants stay throttled, and when the loop never ends.
use rocksqueue.Base.{
  ℕ, ◌≤◌, ◌<◌, ◌≡◌, refl, sym, ap, ◌∙◌, true, some, arith, Option-cases, Bool-cases, inl, inr, ◌⊎◌,
  List, [], ◌∷◌, ◌++◌, All, subst,
}
use rocksqueue.Bytes.{Bytes}
use rocksqueue.Dash.{get}
use rocksqueue.Float.{F64}
use rocksqueue.Rocks.World.{World, FaultFree}
use rocksqueue.Run.{returns, blocks, and_run}
use rocksqueue.Stats.{TenantStats}
use rocksqueue.Store.{Bincode}
use rocksqueue.Store.Throttles.{ReadsBack, HasThrottleRows}
use rocksqueue.Throttle.{
  AutoThrottle, ThrottleConfig, ThrottleState, may_release, evaluate_one, evaluate,
}
use rocksqueue.Throttle.Released.{evaluate_one-blocks}
use rocksqueue.Throttle.Kept.{
  IsCalm, MustStay, calm_may_release, stay_may_release, next_cooldown, Kept, one-Kept,
}

module _ {w : World} (ff : FaultFree w) {f : F64} (bin : Bincode f) (back : ReadsBack bin)
    (config : ThrottleConfig f) (clock : ℕ → ℕ) (now : ℕ) where
  one-cases :
      (stats : TenantStats f) (t : AutoThrottle w f)
      → HasThrottleRows ff bin t.db
      → (evaluate_one w bin config clock now stats t ≡ blocks)
        ⊎ ((u : AutoThrottle w f) × (evaluate_one w bin config clock now stats t ≡ returns u)
            × Kept ff bin back config clock now t u)
  one-cases stats t rows = elim (Option-cases (get stats.tenant_id t.states)) [
    | inl q ↦ inr (one-Kept ff bin back config clock now stats t (λ state h. cc (q, h)) rows)
    | inr (x, q) ↦ elim (Bool-cases (may_release w bin config clock now stats x t)) [
      | inr m ↦ inr (
          one-Kept ff bin back config clock now stats t
            (λ state h l.
              let same : x ≡ state = cc (q, h) in
              sym (ap (λ y. may_release w bin config clock now stats y t) same) ∙ m)
            rows)
      | inl m ↦ elim (Bool-cases x.throttled) [
        | inl l ↦ inl (evaluate_one-blocks ff bin config clock now stats x t q l rows m)
        | inr l ↦ inr (
            one-Kept ff bin back config clock now stats t
              (λ state h l'.
                let same : x ≡ state = cc (q, h) in cc (ap (λ y. y.throttled) same, l, l'))
              rows)
      ]
    ]
  ]

  -- Every throttled tenant among the statistics must stay throttled.
  abbrev pub AllStay : List (TenantStats f) → AutoThrottle w f → Type 0
  AllStay all_stats t =
      All
        (λ stats.
          (state : ThrottleState)
          → get stats.tenant_id t.states ≡ some state
          → state.throttled ≡ true
          → MustStay ff bin back config clock now stats state t.baselines)
        all_stats

  AllStay-Kept :
      (all_stats : List (TenantStats f)) (t u : AutoThrottle w f)
      → now < next_cooldown ff bin back config clock now
      → Kept ff bin back config clock now t u
      → AllStay all_stats t
      → AllStay all_stats u
  AllStay-Kept [] t u c k h = tt
  AllStay-Kept (stats ∷ all_stats) t u c k h = (
    λ state g l. elim (k.new stats.tenant_id state g) [
      | inl old ↦
          subst (MustStay ff bin back config clock now stats state) (sym k.same_baselines)
            (h.0 state old l)
      | inr fresh ↦ inl (omega (arith, fresh, c))
    ],
    AllStay-Kept all_stats t u c k h.1,
  )

  -- On a database where no call fails, if a cooldown that starts now ends later, and every throttled
  -- tenant among the statistics is still cooling down or is at or above half the burst threshold, 7/10 of
  -- the backlog threshold or 7/10 of its spike threshold, then an evaluation comes back, and has
  -- left the state of any throttled tenant as it was.
  pub evaluate-keeps :
      (all_stats : List (TenantStats f)) (t : AutoThrottle w f) (id : Bytes) (state : ThrottleState)
      → HasThrottleRows ff bin t.db
      → now < next_cooldown ff bin back config clock now
      → AllStay all_stats t
      → get id t.states ≡ some state
      → state.throttled ≡ true
      → (u : AutoThrottle w f) × (evaluate w bin config clock now all_stats t ≡ returns u)
        × (get id u.states ≡ some state)
  unfolding evaluate
  evaluate-keeps [] t id state rows c h g l = (t, refl, g)
  evaluate-keeps (stats ∷ all_stats) t id state rows c h g l =
      let a =
        one-Kept ff bin back config clock now stats t
          (λ x q m. stay_may_release ff bin back config clock now stats x t (h.0 x q m)) rows in
      let r =
        evaluate-keeps all_stats a.0 id state a.2.rows c (AllStay-Kept all_stats t a.0 c a.2 h.1)
          (a.2.kept id state g l) l in
      (r.0, ap (λ x. and_run x (evaluate w bin config clock now all_stats)) a.1 ∙ r.1, r.2)

  -- On a database where no call fails, an evaluation never ends if among its statistics, anywhere in the
  -- list, are those of a throttled tenant whose cooldown is over and which is below the three
  -- limits of a release: the loop holds a reference to the entry that the release removes.
  pub evaluate-blocks :
      (before : List (TenantStats f)) (stats : TenantStats f) (after : List (TenantStats f))
      (state : ThrottleState) (t : AutoThrottle w f)
      → HasThrottleRows ff bin t.db
      → get stats.tenant_id t.states ≡ some state
      → state.throttled ≡ true
      → state.cooldown_until_ms ≤ now
      → IsCalm ff bin back config clock now stats t.baselines
      → evaluate w bin config clock now (before ++ stats ∷ after) t ≡ blocks
  unfolding evaluate
  evaluate-blocks [] stats after state t rows g l c h =
      ap (λ x. and_run x (evaluate w bin config clock now after))
        (evaluate_one-blocks ff bin config clock now stats state t g l rows
          (calm_may_release ff bin back config clock now stats state t c h))
  evaluate-blocks (x ∷ before) stats after state t rows g l c h = elim (one-cases x t rows) [
    | inl e ↦ ap (λ r. and_run r (evaluate w bin config clock now (before ++ stats ∷ after))) e
    | inr (u, e, k) ↦
        ap (λ r. and_run r (evaluate w bin config clock now (before ++ stats ∷ after))) e
        ∙ evaluate-blocks before stats after state u k.rows (k.kept stats.tenant_id state g l) l c
            (subst (IsCalm ff bin back config clock now stats) (sym k.same_baselines) h)
  ]
