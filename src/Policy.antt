-- ===== src/Policy.antt =====
-- policy.rs: backlog and retention policies of a tenant, and its two tiers.
use rocksqueue.Base.{ℕ, ◌*◌, Option, some}
use rocksqueue.Bytes.{Bytes}

pub data BacklogPolicy : Type 0 where
  reject : BacklogPolicy
  block : (timeout_ms : ℕ) → BacklogPolicy
  evict_oldest : BacklogPolicy

pub record RetentionPolicy : Type 0 where
  pub pending_retention_secs : ℕ
  pub dlq_retention_secs : ℕ
  pub inflight_stale_secs : ℕ

unfoldable pub default_retention : RetentionPolicy
default_retention = record {
  pending_retention_secs = 0;
  dlq_retention_secs = 7 * 24 * 3600;
  inflight_stale_secs = 300;
}

pub record NamespacePolicy : Type 0 where
  pub tenant_id : Bytes
  pub namespace : Bytes
  pub weight : ℕ
  pub max_inflight : ℕ
  pub burst_tokens : ℕ
  pub rate_per_sec : ℕ
  pub backlog_quota : Option ℕ
  pub backlog_policy : BacklogPolicy
  pub retention : RetentionPolicy

unfoldable pub standard : Bytes → NamespacePolicy
unfolding default_retention
standard tenant_id = record {
  tenant_id = tenant_id;
  namespace = tenant_id;
  weight = 10;
  max_inflight = 500;
  burst_tokens = 100;
  rate_per_sec = 100;
  backlog_quota = some 100_000;
  backlog_policy = reject;
  retention = default_retention;
}

unfoldable pub premium : Bytes → NamespacePolicy
unfolding default_retention
premium tenant_id = record {
  tenant_id = tenant_id;
  namespace = tenant_id;
  weight = 50;
  max_inflight = 5000;
  burst_tokens = 1000;
  rate_per_sec = 1000;
  backlog_quota = some 1_000_000;
  backlog_policy = block 5000;
  retention = default_retention;
}
