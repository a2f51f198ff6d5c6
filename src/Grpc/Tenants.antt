-- ===== src/Grpc/Tenants.antt =====
-- grpc/control_plane.rs: provisioning, dropping, and the policies of tenants. `now` is the clock
-- in milliseconds, `clock` the scheduler's and `instant` the collector's.
pub mod Policies
use rocksqueue.Base.{
  ℕ, ◌*◌, ◌==◌, ◌%◌, ◌^◌, Bool, true, false, Option, none, some, List, [], ◌∷◌, if◌then◌else◌,
}
use rocksqueue.Bytes.{Bytes, beq}
use rocksqueue.Dash.{remove}
use rocksqueue.Float.{F64}
use rocksqueue.Grpc.Handler.{
  Server, Handler, not_found, invalid_argument, respond, reads, changes, require, offload, ◌>>=◌,
  ◌>>◌,
}
use rocksqueue.Policy.{
  NamespacePolicy, BacklogPolicy, reject, block, evict_oldest, standard, premium,
}
use rocksqueue.Rocks.World.{World}
use rocksqueue.Run.{and_run, returns}
use rocksqueue.Grpc.Handler.{reply}
use rocksqueue.Scheduler.{TenantPolicy}
use rocksqueue.Scheduler
use rocksqueue.Stats
use rocksqueue.Store.{Bincode}
use rocksqueue.Store.Baselines.{register_baseline}
use rocksqueue.Tenant.Lifecycle

-- "premium"
abbrev pub premium_tier : Bytes
premium_tier = b'p' ∷ b'r' ∷ b'e' ∷ b'm' ∷ b'i' ∷ b'u' ∷ b'm' ∷ []

-- "block"
abbrev pub block_name : Bytes
block_name = b'b' ∷ b'l' ∷ b'o' ∷ b'c' ∷ b'k' ∷ []

-- "evict_oldest"
abbrev pub evict_oldest_name : Bytes
evict_oldest_name =
    b'e' ∷ b'v' ∷ b'i' ∷ b'c' ∷ b't' ∷ b'_' ∷ b'o' ∷ b'l' ∷ b'd' ∷ b'e' ∷ b's' ∷ b't' ∷ []

-- "reject"
abbrev pub reject_name : Bytes
reject_name = b'r' ∷ b'e' ∷ b'j' ∷ b'e' ∷ b'c' ∷ b't' ∷ []

unfoldable pub policy_of_tier : (tier tenant_id : Bytes) → NamespacePolicy
policy_of_tier tier tenant_id =
    if beq tier premium_tier then premium tenant_id else standard tenant_id

-- The scheduler's part of a policy.
unfoldable pub sched_policy : (tenant_id : Bytes) → NamespacePolicy → TenantPolicy
sched_policy tenant_id policy = record {
  tenant_id = tenant_id;
  weight = policy.weight;
  max_inflight = policy.max_inflight;
  burst_tokens = policy.burst_tokens;
  rate_per_sec = policy.rate_per_sec;
}

-- `NamespacePolicyRequest` without the tenant.
pub record NamespacePolicyRequest : Type 0 where
  pub backlog_quota : ℕ
  pub backlog_policy : Bytes
  pub block_timeout_ms : ℕ
  pub pending_retention_secs : ℕ
  pub dlq_retention_secs : ℕ
  pub inflight_stale_secs : ℕ

unfoldable pub backlog_policy_of : NamespacePolicyRequest → BacklogPolicy
backlog_policy_of req =
    if beq req.backlog_policy block_name
    then block req.block_timeout_ms
    else if beq req.backlog_policy evict_oldest_name
    then evict_oldest
    else reject

-- The policy that a request makes; a zero stands for a default or for no quota.
unfoldable pub requested_policy : (tenant_id : Bytes) → NamespacePolicyRequest → NamespacePolicy
requested_policy tenant_id req = record {
  tenant_id = tenant_id;
  namespace = tenant_id;
  weight = 10;
  max_inflight = 500;
  burst_tokens = 100;
  rate_per_sec = 100;
  backlog_quota = if req.backlog_quota == 0 then none else some req.backlog_quota;
  backlog_policy = backlog_policy_of req;
  retention = record {
    pending_retention_secs = req.pending_retention_secs;
    dlq_retention_secs =
        if req.dlq_retention_secs == 0 then 7 * 24 * 3600 else req.dlq_retention_secs;
    inflight_stale_secs = if req.inflight_stale_secs == 0 then 300 else req.inflight_stale_secs;
  };
}

unfoldable pub policy_name : BacklogPolicy → Bytes
policy_name reject = reject_name
policy_name (block timeout_ms) = block_name
policy_name evict_oldest = evict_oldest_name

-- `Policy` of the protocol
pub record PolicyMessage : Type 0 where
  pub weight : ℕ
  pub max_inflight : ℕ
  pub burst_tokens : ℕ
  pub rate_per_sec : ℕ

pub record NamespacePolicyResponse : Type 0 where
  pub tenant_id : Bytes
  pub backlog_quota : ℕ
  pub backlog_policy : Bytes
  pub pending_retention_secs : ℕ
  pub dlq_retention_secs : ℕ
  pub inflight_stale_secs : ℕ

-- `unwrap_or(0)`
abbrev pub quota_or_zero : Option ℕ → ℕ
quota_or_zero none = 0
quota_or_zero (some n) = n

module _ (w : World) {f : F64} (bin : Bincode f) where
  -- `self.baselines.register(&req.tenant_id, 0.0)`
  unfoldable pub register_baseline_of :
      (now : ℕ) (tenant_id : Bytes) → Handler (Server w f) (Unit {0})
  register_baseline_of now tenant_id s =
      and_run (register_baseline w bin now tenant_id (f.of_nat 0) s.baselines s.registry.db)
        (λ m. returns (reply tt, record s { baselines = m }))

  unfoldable pub provision_tenant :
      (tenant_id tier : Bytes) (now instant : ℕ) (clock : ℕ → ℕ) → Handler (Server w f) (Unit {0})
  provision_tenant tenant_id tier now instant clock = do
    let policy = policy_of_tier tier tenant_id
    offload (Lifecycle.provision_tenant w tenant_id policy)
    changes (λ s. record s {
      scheduler = Scheduler.register clock (sched_policy tenant_id policy) s.scheduler;
      collector = Stats.register instant tenant_id s.collector;
    })
    register_baseline_of now tenant_id

module _ (w : World) {f : F64} where
  unfoldable pub drop_tenant : (tenant_id : Bytes) → Handler (Server w f) (Unit {0})
  drop_tenant tenant_id = do
    offload (Lifecycle.drop_tenant w tenant_id)
    changes (λ s. record s {
      scheduler = Scheduler.deregister tenant_id s.scheduler;
      collector = Stats.deregister tenant_id s.collector;
      baselines = remove tenant_id s.baselines;
    })

  unfoldable pub update_policy :
      (tenant_id : Bytes) (policy : Option PolicyMessage) (clock : ℕ → ℕ)
      → Handler (Server w f) (Unit {0})
  update_policy tenant_id policy clock = do
    p ← require invalid_argument policy
    changes (λ s. record s {
      scheduler =
          Scheduler.update_policy clock
            (record {
              tenant_id = tenant_id;
              weight = p.weight;
              max_inflight = p.max_inflight;
              burst_tokens = p.burst_tokens;
              rate_per_sec = p.rate_per_sec;
            })
            s.scheduler;
    })

  -- `max_inflight as u32`
  unfoldable pub get_policy : (tenant_id : Bytes) → Handler (Server w f) PolicyMessage
  get_policy tenant_id = do
    found ← reads (λ s. Scheduler.policy tenant_id s.scheduler)
    p ← require not_found found
    respond (record {
      weight = p.weight;
      max_inflight = p.max_inflight % 2 ^ 32;
      burst_tokens = p.burst_tokens;
      rate_per_sec = p.rate_per_sec;
    })

  unfoldable pub set_namespace_policy :
      (tenant_id : Bytes) → NamespacePolicyRequest → Handler (Server w f) (Unit {0})
  set_namespace_policy tenant_id req =
      offload (Lifecycle.update_namespace_policy w tenant_id (requested_policy tenant_id req))

  unfoldable pub get_namespace_policy :
      (tenant_id : Bytes) → Handler (Server w f) NamespacePolicyResponse
  get_namespace_policy tenant_id = do
    found ← reads (λ s. Lifecycle.get_policy w s.registry tenant_id)
    p ← require not_found found
    respond (record {
      tenant_id = tenant_id;
      backlog_quota = quota_or_zero p.backlog_quota;
      backlog_policy = policy_name p.backlog_policy;
      pending_retention_secs = p.retention.pending_retention_secs;
      dlq_retention_secs = p.retention.dlq_retention_secs;
      inflight_stale_secs = p.retention.inflight_stale_secs;
    })

  unfoldable pub list_tenants : Handler (Server w f) (List Bytes)
  list_tenants = reads (λ s. Lifecycle.list_tenants w s.registry)
