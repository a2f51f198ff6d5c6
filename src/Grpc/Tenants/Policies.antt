-- ===== src/Grpc/Tenants/Policies.antt =====
-- A namespace policy that is set is the one that is in force.
use rocksqueue.Base.{
  ℕ, ◌*◌, ◌==◌, ◌≡◌, refl, ap, ◌∙◌, true, none, some, [], ◌∷◌, ok, arith, if◌then◌else◌, step_ok,
  Bool-cases, inl, inr,
}
use rocksqueue.Bytes.{Bytes, beq}
use rocksqueue.Bytes.Order.{beq_refl, beq_iff}
use rocksqueue.Float.{F64}
use rocksqueue.Grpc.Handler.{Server, reply, offload_ok}
use rocksqueue.Grpc.Tenants.{
  NamespacePolicyRequest, NamespacePolicyResponse, requested_policy, backlog_policy_of, policy_name,
  quota_or_zero, set_namespace_policy, get_namespace_policy, block_name, evict_oldest_name,
  reject_name,
}
use rocksqueue.Policy.{NamespacePolicy}
use rocksqueue.Rocks.Table.{put_cf}
use rocksqueue.Rocks.World.{World, FaultFree}
use rocksqueue.Run.{returns}
use rocksqueue.Tenant.Lifecycle.{
  policy_get, policy_insert, persist_policy, update_namespace_policy, get_policy,
}
use rocksqueue.Tenant.Names.{cf_system, meta_key}
use rocksqueue.Tenant.State.{Registry, Policies, write_opt}
use rocksqueue.Tenant.State.View.{require_cf_ok, write_run}

pub policy_get-policy_insert :
    (k j : Bytes) (p : NamespacePolicy) (ps : Policies)
    → policy_get j (policy_insert k p ps) ≡ (if beq k j then some p else policy_get j ps)
unfolding policy_get policy_insert
policy_get-policy_insert k j p [] = refl
policy_get-policy_insert k j p ((i, q) ∷ ps) =
    ground (arith, policy_get-policy_insert k j p ps, beq_iff i k, beq_iff i j, beq_iff k j)

-- The response that a request leads to.
abbrev pub echoed : (tenant_id : Bytes) → NamespacePolicyRequest → NamespacePolicyResponse
echoed tenant_id req = record {
  tenant_id = tenant_id;
  backlog_quota = req.backlog_quota;
  backlog_policy =
      if beq req.backlog_policy block_name
      then block_name
      else if beq req.backlog_policy evict_oldest_name
      then evict_oldest_name
      else reject_name;
  pending_retention_secs = req.pending_retention_secs;
  dlq_retention_secs =
      if req.dlq_retention_secs == 0 then 7 * 24 * 3600 else req.dlq_retention_secs;
  inflight_stale_secs = if req.inflight_stale_secs == 0 then 300 else req.inflight_stale_secs;
}

quota-back : (n : ℕ) → quota_or_zero (if n == 0 then none else some n) ≡ n
quota-back n = elim (Bool-cases (n == 0)) [ inl e ↦ rw e (ground (arith, e)) | inr e ↦ rw e refl ]

name-back :
    (req : NamespacePolicyRequest)
    → policy_name (backlog_policy_of req) ≡ (
        if beq req.backlog_policy block_name
        then block_name
        else if beq req.backlog_policy evict_oldest_name
        then evict_oldest_name
        else reject_name)
unfolding policy_name backlog_policy_of
name-back req = elim (Bool-cases (beq req.backlog_policy block_name)) [
  | inl e ↦ rw e refl
  | inr e ↦ elim (Bool-cases (beq req.backlog_policy evict_oldest_name)) [
    | inl d ↦ rw (e, d) refl
    | inr d ↦ rw (e, d) refl
  ]
]

module _ {w : World} (ff : FaultFree w) (tenant_id : Bytes) where
  persist_run :
      (policy : NamespacePolicy) (bytes : Bytes) (s : Registry w)
      → w.has_cf s.db cf_system ≡ true
      → w.serialize_policy policy ≡ ok bytes
      → persist_policy w tenant_id policy s
        ≡ (ok tt, (write_opt w (put_cf cf_system (meta_key tenant_id) bytes ∷ []) s).1)
  unfolding persist_policy
  persist_run policy bytes s h e = step_ok _ (require_cf_ok ff cf_system s h) (
      step_ok _ (λ i. (e i, s))
        (write_run ff (put_cf cf_system (meta_key tenant_id) bytes ∷ []) s (h, tt)))

  update_run :
      (policy old : NamespacePolicy) (bytes : Bytes) (s : Registry w)
      → w.has_cf s.db cf_system ≡ true
      → w.serialize_policy policy ≡ ok bytes
      → policy_get tenant_id s.policies ≡ some old
      → (s' : Registry w) × (update_namespace_policy w tenant_id policy s ≡ (ok tt, s'))
        × (s'.policies ≡ policy_insert tenant_id policy s.policies)
  unfolding update_namespace_policy write_opt
  update_run policy old bytes s h e g =
      let s1 = (write_opt w (put_cf cf_system (meta_key tenant_id) bytes ∷ []) s).1 in
      (
        record s1 { policies = policy_insert tenant_id policy s1.policies },
        rw (update_namespace_policy, g) (step_ok _ (persist_run policy bytes s h e) refl),
        refl,
      )

module _ {w : World} (ff : FaultFree w) {f : F64} (tenant_id : Bytes)
    (req : NamespacePolicyRequest) where
  -- On a database where no call fails, setting the namespace policy of a tenant that exists succeeds
  -- when the policy can be serialized: a request for it then gives back the quota, the backlog policy and the
  -- retention times that were set, with Reject for a name that is not known and the
  -- defaults for zero times, and the policy in force has weight 10, 500 inflight tasks, 100 burst tokens and
  -- rate 100, whatever the tenant had before; the scheduler keeps its own policy.
  pub set_namespace_policy-get :
      (old : NamespacePolicy) (bytes : Bytes) (s : Server w f)
      → w.has_cf s.registry.db cf_system ≡ true
      → w.serialize_policy (requested_policy tenant_id req) ≡ ok bytes
      → get_policy w s.registry tenant_id ≡ some old
      → (s' : Server w f) × (p : NamespacePolicy) × (set_namespace_policy w tenant_id req s
          ≡ returns (reply tt, s'))
        × (get_namespace_policy w tenant_id s' ≡ returns (reply (echoed tenant_id req), s'))
        × (get_policy w s'.registry tenant_id ≡ some p)
        × (p.weight ≡ 10)
        × (p.max_inflight ≡ 500)
        × (p.burst_tokens ≡ 100)
        × (p.rate_per_sec ≡ 100)
        × (s'.scheduler ≡ s.scheduler)
  unfolding set_namespace_policy get_namespace_policy get_policy requested_policy
  set_namespace_policy-get old bytes s h e g =
      let policy = requested_policy tenant_id req in
      let u = update_run ff tenant_id policy old bytes s.registry h e g in
      let s' = record s { registry = u.0 } in
      let found : policy_get tenant_id u.0.policies ≡ some policy =
        ap (policy_get tenant_id) u.2
        ∙ policy_get-policy_insert tenant_id tenant_id policy s.registry.policies
        ∙ rw (beq_refl) refl in
      (
        s',
        policy,
        offload_ok (update_namespace_policy w tenant_id policy) s tt u.0 u.1,
        rw (found, quota-back req.backlog_quota, name-back req) refl,
        found,
        refl,
        refl,
        refl,
        refl,
        refl,
      )
