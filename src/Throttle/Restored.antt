-- ===== src/Throttle/Restored.antt =====
-- main.rs calls `restore_from_store` before any tenant is registered with the scheduler.
use rocksqueue.Base.{
  ℕ, ◌+◌, ◌≡◌, refl, ap, ◌∙◌, Bool, true, false, none, List, [], ◌∷◌, ltb, Bool-cases, inl, inr,
  if◌then◌else◌,
}
use rocksqueue.Bytes.{Bytes}
use rocksqueue.Dash.{get, insert}
use rocksqueue.Float.{F64}
use rocksqueue.Rocks.World.{World, FaultFree}
use rocksqueue.Run.{returns}
use rocksqueue.Scheduler.{TenantPolicy, WfqScheduler, policy}
use rocksqueue.Store.{Bincode, PersistedThrottle}
use rocksqueue.Store.Throttles.{
  HasThrottleRows, throttles, clear_throttle_lem, load_all_throttles_lem,
}
use rocksqueue.Throttle.{AutoThrottle, ThrottleConfig, reschedule}
use rocksqueue.Throttle.Restore.{reapplied, state_again, restore_loop, restore_from_store}

if_yes : {A : Type 0} (c : Bool) (a b : A) → c ≡ true → (if c then a else b) ≡ a
if_yes true a b h = refl
if_yes false a b h = cc h

if_no : {A : Type 0} (c : Bool) (a b : A) → c ≡ false → (if c then a else b) ≡ b
if_no true a b h = cc h
if_no false a b h = refl

module _ {w : World} (ff : FaultFree w) {f : F64} (bin : Bincode f) (config : ThrottleConfig f)
    (clock : ℕ → ℕ) where
  reschedule_unknown :
      (id : Bytes) (g : TenantPolicy → TenantPolicy) (s : WfqScheduler f)
      → s.tenants ≡ []
      → reschedule w bin config clock id g s ≡ s
  unfolding reschedule policy get
  reschedule_unknown id g s h =
      let none_known : policy id s ≡ none = ap (λ m. policy id (record s { tenants = m })) h in
      rw (reschedule, none_known) refl

  restore_loop_unknown :
      (times : ℕ → ℕ) (i : ℕ) (rows : List PersistedThrottle) (t : AutoThrottle w f)
      → t.scheduler.tenants ≡ []
      → HasThrottleRows ff bin t.db
      → (t' : AutoThrottle w f) × (restore_loop w bin config clock times i rows t ≡ returns t')
        × (t'.scheduler ≡ t.scheduler)
        × HasThrottleRows ff bin t'.db
  unfolding restore_loop
  restore_loop_unknown times i [] t e h = (t, refl, refl, h)
  restore_loop_unknown times i (r ∷ rows) t e h = elim (Bool-cases r.throttled) [
    | inr x ↦
        let s = restore_loop_unknown times i rows t e h in
        (s.0, if_no r.throttled _ _ x ∙ s.1, s.2, s.3)
    | inl x ↦ elim (Bool-cases (ltb (times i) r.cooldown_until_ms)) [
      | inl c ↦
          let same =
            reschedule_unknown r.tenant_id (reapplied w bin config clock r) t.scheduler e in
          let u = record t {
            scheduler =
                reschedule w bin config clock r.tenant_id (reapplied w bin config clock r)
                  t.scheduler;
            states = insert r.tenant_id (state_again w bin config clock r) t.states;
          } in
          let s = restore_loop_unknown times (i + 1) rows u (ap (λ x. x.tenants) same ∙ e) h in
          (
            s.0,
            if_yes r.throttled _ _ x ∙ if_yes (ltb (times i) r.cooldown_until_ms) _ _ c ∙ s.1,
            s.2 ∙ same,
            s.3,
          )
      | inr c ↦
          let d = clear_throttle_lem ff bin r.tenant_id t.db h in
          let s = restore_loop_unknown times (i + 1) rows (record t { db = d.0 }) e d.2.kept in
          (
            s.0,
            if_yes r.throttled _ _ x ∙ if_no (ltb (times i) r.cooldown_until_ms) _ _ c ∙ rw d.1 s.1,
            s.2,
            s.3,
          )
    ]
  ]

  -- Without tenants in the scheduler a restore lowers no rate.
  pub restore_unregistered :
      (times : ℕ → ℕ) (t : AutoThrottle w f)
      → t.scheduler.tenants ≡ []
      → HasThrottleRows ff bin t.db
      → (t' : AutoThrottle w f) × (restore_from_store w bin config clock times t ≡ returns t')
        × (t'.scheduler ≡ t.scheduler)
        × HasThrottleRows ff bin t'.db
  unfolding restore_from_store
  restore_unregistered times t e h =
      let s = restore_loop_unknown times 0 (throttles w bin t.db) t e h in
      (s.0, rw (load_all_throttles_lem ff bin t.db h.has_system) s.1, s.2, s.3)
