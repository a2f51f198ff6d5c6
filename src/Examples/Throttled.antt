-- ===== src/Examples/Throttled.antt =====
-- The theorems on the throttle, for a tenant in a burst, one that has calmed down, and a restart.
use rocksqueue.Base.{◌≡◌, ◌<◌, ◌+◌, ◌*◌, ◌%◌, ◌^◌, refl, arith, inl, inr, true, none, some, [], ◌∷◌}
use rocksqueue.Bytes.{Bytes, beq}
use rocksqueue.Baseline.{spike_threshold_of}
use rocksqueue.Dash.{get}
use rocksqueue.Run.{blocks}
use rocksqueue.Scheduler.{WfqScheduler, wfq_standard, new_tenant, policy}
use rocksqueue.Stats.{TenantStats}
use rocksqueue.Store.Throttles.{HasThrottleRows, persist_throttle_lem}
use rocksqueue.Throttle.{AutoThrottle, ThrottleState, ThrottleConfig, default_config, evaluate}
use rocksqueue.Throttle.Applied.{apply_throttle_lem}
use rocksqueue.Throttle.Released.{force_release_lem}
use rocksqueue.Throttle.Evaluated.{AllStay, evaluate-keeps, evaluate-blocks}
use rocksqueue.Startup.Policies.{restore_lem}
use rocksqueue.Grpc.Tenants.{sched_policy}
use rocksqueue.Policy.{premium}
use rocksqueue.Tenant.Lifecycle.{get_policy, policy_get}
use rocksqueue.Tenant.State.{Registry}
use rocksqueue.Memory.{Memory, memory, fault_free}
use rocksqueue.Examples.{tenant, clock, registry}
use rocksqueue.Examples.Workers.{thousandths}
use rocksqueue.Examples.Rows.{
  bincode, bincode-ReadsBack, blank_db, blank-HasThrottleRows, busy, cooling,
}

abbrev config : ThrottleConfig thousandths
config = default_config thousandths

abbrev known : WfqScheduler thousandths
known = record { tenants = (tenant, new_tenant clock (wfq_standard tenant)) ∷ []; virtual_time = 0 }

abbrev calm : AutoThrottle memory thousandths
calm = record { states = []; scheduler = known; baselines = []; db = blank_db; held = none }

abbrev burst : Bytes
burst = 1 ∷ []

known_policy : policy tenant known ≡ some (wfq_standard tenant)
unfolding policy get beq new_tenant
known_policy = refl

own_identifier : (wfq_standard tenant).tenant_id ≡ tenant
unfolding wfq_standard
own_identifier = refl

apply_throttle_lem_example :
    (apply_throttle_lem fault_free bincode bincode-ReadsBack config clock tenant burst 1000
      (wfq_standard tenant)
      calm
      known_policy
      own_identifier
      blank-HasThrottleRows).1.rate_per_sec
    ≡ 25
unfolding default_config wfq_standard
apply_throttle_lem_example =
    (apply_throttle_lem fault_free bincode bincode-ReadsBack config clock tenant burst 1000
      (wfq_standard tenant) calm known_policy own_identifier blank-HasThrottleRows).3.lowered.rate

abbrev state : ThrottleState
state = record {
  tenant_id = tenant;
  throttled = true;
  reason = burst;
  original_rate = 100;
  applied_rate = 5;
  triggered_at_ms = 1000;
  cooldown_until_ms = 31_000;
}

abbrev throttled : AutoThrottle memory thousandths
throttled = record calm { states = (tenant, state) ∷ [] }

known_state : get tenant throttled.states ≡ some state
unfolding get beq
known_state = refl

force_release_lem_example :
    policy tenant
      (force_release_lem fault_free bincode config clock tenant state
        (wfq_standard tenant)
        throttled
        known_state
        known_policy
        own_identifier
        refl
        blank-HasThrottleRows).0.scheduler
    ≡ some (record (wfq_standard tenant) { rate_per_sec = 100; burst_tokens = 100 })
unfolding policy get beq new_tenant wfq_standard
force_release_lem_example =
    (force_release_lem fault_free bincode config clock tenant state (wfq_standard tenant) throttled
        known_state known_policy own_identifier refl blank-HasThrottleRows).2.policies
      tenant

in_time : 40_000 < (40_000 + config.cooldown_secs * 1000 % 2 ^ 64) % 2 ^ 64
unfolding default_config
in_time = omega arith

-- The tenant is still loud at 40000.
still_loud : AllStay fault_free bincode bincode-ReadsBack config clock 40_000 (busy ∷ []) throttled
unfolding default_config
still_loud = ((λ x g l. inr (inl refl)), tt)

evaluate-keeps_example :
    get tenant
      (evaluate-keeps fault_free bincode bincode-ReadsBack config clock 40_000
        (busy ∷ [])
        throttled
        tenant
        state
        blank-HasThrottleRows
        in_time
        still_loud
        known_state
        refl).0.states
    ≡ some state
evaluate-keeps_example =
    (evaluate-keeps fault_free bincode bincode-ReadsBack config clock 40_000 (busy ∷ []) throttled
      tenant state blank-HasThrottleRows in_time still_loud known_state refl).2

abbrev quiet : TenantStats thousandths
quiet = record busy { arrival_rate = 1; burst_score = 1; backlog_ratio = 1 }

-- Another tenant's statistics come first.
evaluate-blocks_example :
    evaluate memory bincode config clock 40_000
      (record busy { tenant_id = b'o' ∷ [] } ∷ quiet ∷ [])
      throttled
    ≡ blocks
unfolding get beq spike_threshold_of default_config
evaluate-blocks_example =
    evaluate-blocks fault_free bincode bincode-ReadsBack config clock 40_000
      (record busy { tenant_id = b'o' ∷ [] } ∷ []) quiet [] state throttled blank-HasThrottleRows
      refl refl (omega arith) (refl, refl, refl)

-- A service that starts while a throttle in the store is still cooling down.
abbrev stored : (db : Memory) × HasThrottleRows fault_free bincode db
stored =
    let p =
      persist_throttle_lem fault_free bincode bincode-ReadsBack cooling blank_db
        blank-HasThrottleRows in
    (p.0, p.2.kept)

abbrev restarted : Registry memory
restarted = record registry { db = stored.0; policies = (tenant, premium tenant) ∷ [] }

restore_lem_example :
    policy tenant
      (restore_lem fault_free bincode config
        (λ id. clock)
        restarted
        (λ i. 2000)
        2000
        stored.1).0.1.scheduler
    ≡ some (sched_policy tenant (premium tenant))
unfolding get_policy policy_get beq
restore_lem_example =
    (restore_lem fault_free bincode config (λ id. clock) restarted (λ i. 2000) 2000 stored.1).2
      tenant
