-- ===== src/Examples/Served.antt =====
-- The theorems on the handlers of the control plane, over the small registry.
use rocksqueue.Base.{
  length, ◌+◌, ◌≡◌, refl, true, none, some, List, [], ◌∷◌, arith, inl, inr, Option,
}
use rocksqueue.Bytes.{Bytes, beq}
use rocksqueue.Grpc.Handler.{
  Server, invalid_argument, resource_exhausted, reply, status, queue_or_default,
}
use rocksqueue.Grpc.Tasks.{Hex, ReadsHex, DequeuedTask, enqueue_batch, dequeue_tasks, ack_batch}
use rocksqueue.Grpc.Tasks.Errors.{undecodable_key, over_quota}
use rocksqueue.Grpc.Tasks.Keys.{AckedBack, ack-handed_back}
use rocksqueue.Grpc.Tasks.Counted.{absent_key}
use rocksqueue.Grpc.Tenants.{NamespacePolicyRequest}
use rocksqueue.Grpc.Tenants.Policies.{set_namespace_policy-get}
use rocksqueue.Grpc.Operations.{DrainPoll, drain_tenant, first_queue}
use rocksqueue.Grpc.Operations.Drained.{DrainEnds, drain_tenant-ends}
use rocksqueue.Grpc.Operations.Paused.{dequeue_tasks-set_paused, with_scheduler}
use rocksqueue.Policy.{reject, premium}
use rocksqueue.Rocks.Table.{lookup}
use rocksqueue.Run.{returns, and_run}
use rocksqueue.Scheduler.{set_paused, new_tenant, wfq_premium}
use rocksqueue.Stats.{TenantStatsState, new_counters}
use rocksqueue.Dash.{get}
use rocksqueue.Task.Keys.{encode_key}
use rocksqueue.Tenant.Enqueue.Append.{locked}
use rocksqueue.Tenant.Lifecycle.{get_policy, policy_get}
use rocksqueue.Tenant.Names.{cf_pending, cf_inflight, cf_dlq, cf_system}
use rocksqueue.Tenant.Places.{IsWellPlaced}
use rocksqueue.Tenant.State.View.{Provisioned, inflight}
use rocksqueue.Memory.{memory, fault_free, has_name}
use rocksqueue.Examples.{tenant, queue, registry, small_quota, clock}
use rocksqueue.Examples.Histories.{two_come, two_come-IsWellPlaced}
use rocksqueue.Examples.Queues.{run_queues, times, payloads}
use rocksqueue.Examples.Workers.{thousandths}
use rocksqueue.Examples.Rows.{busy}

-- A key is written behind an `x`.
stripped : Bytes → Option Bytes
stripped [] = none
stripped (b ∷ key) = some key

abbrev hex : Hex
hex = record { encode = λ key. b'x' ∷ key; decode = stripped }

hex-ReadsHex : ReadsHex hex
unfolding stripped
hex-ReadsHex = record { decode-encode = λ key. refl }

not_hex : hex.decode [] ≡ none
unfolding stripped
not_hex = refl

-- A service with the small registry, whose tenant is premium.
abbrev served : Server memory thousandths
served = record {
  registry = record registry { policies = (tenant, premium tenant) ∷ [] };
  scheduler = record {
    tenants = (tenant, new_tenant clock (wfq_premium tenant)) ∷ [];
    virtual_time = 0;
  };
  collector = [];
  throttles = [];
  baselines = [];
  queues = queue ∷ [];
}

served-Provisioned : Provisioned memory tenant served.registry
unfolding has_name cf_pending cf_inflight cf_dlq beq
served-Provisioned = record { has_pending = refl; has_inflight = refl; has_dlq = refl }

undecodable_key_example :
    ack_batch memory hex tenant ((b'x' ∷ 7 ∷ []) ∷ [] ∷ []) served
    ≡ returns (status invalid_argument, served)
undecodable_key_example =
    (undecodable_key tenant served hex ((b'x' ∷ 7 ∷ []) ∷ []) [] [] 1000 not_hex).2

-- The service with a tenant of small quota.
abbrev tight : Server memory thousandths
tight = record served {
  registry = record registry { policies = (tenant, small_quota 5 reject) ∷ [] };
}

tight-Provisioned : Provisioned memory tenant tight.registry
unfolding has_name cf_pending cf_inflight cf_dlq beq
tight-Provisioned = record { has_pending = refl; has_inflight = refl; has_dlq = refl }

tight_policy : get_policy memory tight.registry tenant ≡ some (small_quota 5 reject)
unfolding get_policy policy_get beq
tight_policy = refl

over_quota_example :
    enqueue_batch memory tenant queue payloads times tight
    ≡ returns (
      status resource_exhausted,
      record tight { registry = locked memory tenant (queue_or_default queue) tight.registry },
    )
unfolding run_queues queue_or_default
over_quota_example =
    over_quota fault_free tenant queue payloads times (small_quota 5 reject) 5 tight (omega arith)
      tight-Provisioned tight_policy refl refl (omega arith)

-- The service with two tasks that are pending.
abbrev two_served : Server memory thousandths
two_served = record served {
  registry = record two_come { policies = (tenant, premium tenant) ∷ [] };
}

two_served-IsWellPlaced : IsWellPlaced fault_free tenant two_served.registry
two_served-IsWellPlaced = record {
  provisioned = record {
    has_pending = two_come-IsWellPlaced.provisioned.has_pending;
    has_inflight = two_come-IsWellPlaced.provisioned.has_inflight;
    has_dlq = two_come-IsWellPlaced.provisioned.has_dlq;
  };
  placed = two_come-IsWellPlaced.placed;
}

two_served_policy : get_policy memory two_served.registry tenant ≡ some (premium tenant)
unfolding get_policy policy_get beq
two_served_policy = refl

ack-handed_back_example :
    (tasks : List DequeuedTask) × (r : Server memory thousandths) × (dequeue_tasks memory hex tenant
        queue 10 clock two_served
      ≡ returns (reply tasks, r))
    × (length tasks + length (inflight fault_free tenant two_served.registry)
        ≡ length (inflight fault_free tenant r.registry))
    × AckedBack fault_free hex tenant tasks two_served r
ack-handed_back_example =
    ack-handed_back fault_free hex hex-ReadsHex tenant queue 10 clock (premium tenant) two_served
      two_served-IsWellPlaced two_served_policy

no_nine : lookup (encode_key queue 9) (inflight fault_free tenant served.registry) ≡ none
unfolding run_queues lookup
no_nine = refl

abbrev counts : TenantStatsState thousandths
counts = record {
  stats = busy;
  counters = record new_counters { nack_count = 2; total_nacked = 3 };
}

-- The service with statistics of the tenant.
abbrev counted : Server memory thousandths
counted = record served { collector = (tenant, counts) ∷ [] }

counted_tenant : get tenant counted.collector ≡ some counts
unfolding get beq
counted_tenant = refl

absent_key_example :
    get tenant
      (absent_key fault_free hex hex-ReadsHex tenant
        (encode_key queue 9)
        counted
        served-Provisioned
        no_nine
        counts
        counted_tenant
        1000).1.0.collector
    ≡ some
        (record counts { counters = record counts.counters { nack_count = 3; total_nacked = 4 } })
unfolding beq
absent_key_example =
    (absent_key fault_free hex hex-ReadsHex tenant (encode_key queue 9) counted served-Provisioned
        no_nine counts counted_tenant 1000).1.3
      tenant

abbrev polls : List (DrainPoll memory thousandths)
polls =
    record { now = 600_000_000; others = λ s. s }
    ∷ record { now = 2_600_000_000; others = λ s. s }
    ∷ []

drain_tenant-ends_example :
    DrainEnds fault_free tenant queue 2_000_000_100 polls
      (record served { scheduler = set_paused tenant true served.scheduler })
      (drain_tenant memory tenant 2 100 polls served)
unfolding first_queue
drain_tenant-ends_example =
    drain_tenant-ends fault_free tenant 2 100 polls served served-Provisioned
      (inr (inl (omega arith))) ((λ s p. p), ((λ s p. p), tt))

dequeue_tasks-set_paused_example :
    dequeue_tasks memory hex tenant queue 1 clock
      (with_scheduler (set_paused tenant true served.scheduler) served)
    ≡ and_run
        (dequeue_tasks memory hex tenant queue 1 clock served)
        (λ r. returns (r.0, with_scheduler (set_paused tenant true served.scheduler) r.1))
dequeue_tasks-set_paused_example = dequeue_tasks-set_paused hex tenant queue 1 clock served

abbrev request : NamespacePolicyRequest
request = record {
  backlog_quota = 50;
  backlog_policy = b'b' ∷ b'l' ∷ b'o' ∷ b'c' ∷ b'k' ∷ [];
  block_timeout_ms = 250;
  pending_retention_secs = 60;
  dlq_retention_secs = 0;
  inflight_stale_secs = 0;
}

premium_before : get_policy memory served.registry tenant ≡ some (premium tenant)
unfolding get_policy policy_get beq
premium_before = refl

has_system : memory.has_cf served.registry.db cf_system ≡ true
unfolding has_name cf_pending cf_inflight cf_dlq cf_system beq
has_system = refl

set_namespace_policy-get_example :
    (set_namespace_policy-get fault_free tenant request
      (premium tenant)
      []
      served
      has_system
      refl
      premium_before).1.max_inflight
    ≡ 500
set_namespace_policy-get_example =
    (set_namespace_policy-get fault_free tenant request (premium tenant) [] served has_system refl
      premium_before).6
