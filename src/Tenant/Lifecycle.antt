-- ===== src/Tenant/Lifecycle.antt =====
-- tenant.rs: `provision_tenant`, `drop_tenant`, `update_namespace_policy`, `get_policy`,
-- `list_tenants`. The options of a column family are RocksDB's and not modelled.
use rocksqueue.Base.{
  Option, none, some, List, [], ◌∷◌, ◌++◌, map, if◌then◌else◌, err, queue_not_found, Exec, reads,
  modify, ◌>>=◌, ◌>>◌,
}
use rocksqueue.Bytes.{Bytes, beq, starts_with}
use rocksqueue.Policy.{NamespacePolicy}
use rocksqueue.Rocks.Table.{put_cf, delete_cf}
use rocksqueue.Rocks.World.{World}
use rocksqueue.Tenant.Names.{cf_pending, cf_inflight, cf_dlq, cf_system, meta_key, lock_prefix}
use rocksqueue.Tenant.State.{Registry, Policies, require_cf, write_opt}

unfoldable pub policy_get : Bytes → Policies → Option NamespacePolicy
policy_get k [] = none
policy_get k ((j, p) ∷ ps) = if beq j k then some p else policy_get k ps

unfoldable pub policy_insert : Bytes → NamespacePolicy → Policies → Policies
policy_insert k p [] = (k, p) ∷ []
policy_insert k p ((j, q) ∷ ps) = if beq j k then (k, p) ∷ ps else (j, q) ∷ policy_insert k p ps

unfoldable pub policy_remove : Bytes → Policies → Policies
policy_remove k [] = []
policy_remove k ((j, q) ∷ ps) =
    let rest = policy_remove k ps in if beq j k then rest else (j, q) ∷ rest

-- `retain(|k, _| !k.starts_with(&format!("{tenant}/")))`
unfoldable pub drop_locks : Bytes → List Bytes → List Bytes
drop_locks prefix [] = []
drop_locks prefix (k ∷ ks) =
    let rest = drop_locks prefix ks in if starts_with prefix k then rest else k ∷ rest

-- "tenant not found: "
abbrev pub tenant_not_found : Bytes
tenant_not_found =
    b't' ∷ b'e' ∷ b'n' ∷ b'a' ∷ b'n' ∷ b't' ∷ b' ' ∷ b'n' ∷ b'o' ∷ b't' ∷ b' ' ∷ b'f' ∷ b'o' ∷ b'u'
    ∷ b'n' ∷ b'd' ∷ b':' ∷ b' ' ∷ []

module _ (w : World) where
  unfoldable pub create_cf : Bytes → Exec (Registry w) (Unit {0})
  create_cf name s = ((w.create_cf name s.db).0, record s { db = (w.create_cf name s.db).1 })

  unfoldable pub drop_cf : Bytes → Exec (Registry w) (Unit {0})
  drop_cf name s = ((w.drop_cf name s.db).0, record s { db = (w.drop_cf name s.db).1 })

  -- Store the policy under its key in `__system__`.
  unfoldable pub persist_policy : (tenant : Bytes) → NamespacePolicy → Exec (Registry w) (Unit {0})
  persist_policy tenant policy = do
    require_cf w cf_system
    value ← reads (λ _. w.serialize_policy policy)
    write_opt w (put_cf cf_system (meta_key tenant) value ∷ [])

  unfoldable pub provision_tenant :
      (tenant : Bytes) → NamespacePolicy → Exec (Registry w) (Unit {0})
  provision_tenant tenant policy = do
    create_cf (cf_pending tenant)
    create_cf (cf_inflight tenant)
    create_cf (cf_dlq tenant)
    persist_policy tenant policy
    modify (λ s. record s { policies = policy_insert tenant policy s.policies })

  unfoldable pub drop_tenant : (tenant : Bytes) → Exec (Registry w) (Unit {0})
  drop_tenant tenant = do
    drop_cf (cf_pending tenant)
    drop_cf (cf_inflight tenant)
    drop_cf (cf_dlq tenant)
    require_cf w cf_system
    write_opt w (delete_cf cf_system (meta_key tenant) ∷ [])
    modify (λ s. record s {
      policies = policy_remove tenant s.policies;
      queue_locks = drop_locks (lock_prefix tenant) s.queue_locks;
      ack_locks = drop_locks (lock_prefix tenant) s.ack_locks;
    })

  unfoldable pub get_policy : Registry w → Bytes → Option NamespacePolicy
  get_policy s tenant = policy_get tenant s.policies

  unfoldable pub list_tenants : Registry w → List Bytes
  list_tenants s = map (λ e. e.0) s.policies

  unfoldable pub update_namespace_policy :
      (tenant : Bytes) → NamespacePolicy → Exec (Registry w) (Unit {0})
  update_namespace_policy tenant policy s = elim (policy_get tenant s.policies) [
    | none ↦ (err (queue_not_found (tenant_not_found ++ tenant)), s)
    | some old ↦
        (do
          persist_policy tenant policy
          modify (λ s'. record s' { policies = policy_insert tenant policy s'.policies }))
          s
  ]
