-- ===== src/Throttle/Released.antt =====
-- What a release does, when it is made, and when it never ends.
use rocksqueue.Base.{ℕ, ◌≡◌, refl, ap, ◌∙◌, true, Option, none, some, if◌then◌else◌}
use rocksqueue.Bytes.{Bytes, beq}
use rocksqueue.Bytes.Order.{beq_refl}
use rocksqueue.Dash.{get, remove, get-remove}
use rocksqueue.Float.{F64}
use rocksqueue.Rocks.World.{World, FaultFree}
use rocksqueue.Run.{Run, returns, blocks}
use rocksqueue.Scheduler.{TenantPolicy, policy, update_policy}
use rocksqueue.Stats.{TenantStats}
use rocksqueue.Store.{Bincode}
use rocksqueue.Store.Throttles.{HasThrottleRows, ThrottleSet, clear_throttle_lem}
use rocksqueue.Throttle.{
  AutoThrottle, ThrottleConfig, ThrottleState, remove_state, restored, release_throttle,
  force_release, may_release, evaluate_one,
}
use rocksqueue.Throttle.Applied.{reschedule_known, policy-update_policy}

remove_free :
    {w : World} {f : F64} (id : Bytes) (t : AutoThrottle w f)
    → t.held ≡ none
    → remove_state id t ≡ returns (record t { states = remove id t.states })
unfolding remove_state
remove_free {w} {f} id t h =
    let gone = record t { states = remove id t.states } in
    ap
      (λ (o : Option Bytes). elim o as (λ x. Run (AutoThrottle w f)) [
        | none ↦ returns gone
        | some k ↦ if beq k id then blocks else returns gone
      ])
      h

module _ {w : World} (ff : FaultFree w) {f : F64} (bin : Bincode f) (config : ThrottleConfig f)
    (clock : ℕ → ℕ) where
  -- What the release of the tenant `id`, whose policy was `p`, has done.
  pub record Released (id : Bytes) (rate : ℕ) (p : TenantPolicy) (t t' : AutoThrottle w f)
      : Type 0 where
    pub policies :
        (j : Bytes)
        → policy j t'.scheduler ≡ (
            if beq id j
            then some (record p { rate_per_sec = rate; burst_tokens = rate })
            else policy j t.scheduler)
    pub forgotten : (j : Bytes) → get j t'.states ≡ (if beq id j then none else get j t.states)
    pub cleared : ThrottleSet ff bin id none t.db t'.db

  -- On a database where no call fails, a forced release of a throttled tenant whose policy is known, under
  -- its own identifier, succeeds when the thread holds no reference: the tenant's rate and burst
  -- are the rate from before the throttle, its weight and its `max_inflight` stay those of the throttled
  -- policy, other tenants' policies are as they were, and the throttle is gone from memory and
  -- from the store.
  pub force_release_lem :
      (id : Bytes) (state : ThrottleState) (p : TenantPolicy) (t : AutoThrottle w f)
      → get id t.states ≡ some state
      → policy id t.scheduler ≡ some p
      → p.tenant_id ≡ id
      → t.held ≡ none
      → HasThrottleRows ff bin t.db
      → (t' : AutoThrottle w f) × (force_release w bin config clock id t ≡ returns t')
        × Released id state.original_rate p t t'
  unfolding force_release release_throttle remove_state restored
  force_release_lem id state p t s h own free rows =
      let c = clear_throttle_lem ff bin id t.db rows in
      let q = restored w bin config clock state.original_rate p in
      let known : policy q.tenant_id t.scheduler ≡ some p =
        ap (λ i. policy i t.scheduler) own ∙ h in
      (
        record t {
          scheduler = update_policy clock q t.scheduler;
          db = c.0;
          states = remove id t.states;
        },
        rw (force_release, s, c.1)
            (remove_free id _ free
              ∙ ap
                  (λ u. returns (record t { scheduler = u; db = c.0; states = remove id t.states }))
                  (reschedule_known w bin config clock id
                    (restored w bin config clock state.original_rate) p t.scheduler h)),
        record {
          policies = λ j.
              policy-update_policy clock q p j t.scheduler known
              ∙ ap (λ i. if beq i j then some q else policy j t.scheduler) own;
          forgotten = λ j. get-remove id j t.states;
          cleared = c.2;
        },
      )

  -- A release in the loop of an evaluation waits for the reference that the loop holds.
  pub evaluate_one-blocks :
      (now : ℕ) (stats : TenantStats f) (state : ThrottleState) (t : AutoThrottle w f)
      → get stats.tenant_id t.states ≡ some state
      → state.throttled ≡ true
      → HasThrottleRows ff bin t.db
      → may_release w bin config clock now stats state t ≡ true
      → evaluate_one w bin config clock now stats t ≡ blocks
  unfolding evaluate_one release_throttle remove_state
  evaluate_one-blocks now stats state t s throttled rows release =
      let c = clear_throttle_lem ff bin stats.tenant_id t.db rows in
      rw (evaluate_one, s)
        (rw release (rw throttled (rw (release_throttle, c.1) (rw (remove_state, beq_refl) refl))))
