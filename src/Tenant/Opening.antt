-- ===== src/Tenant/Opening.antt =====
-- tenant.rs: what `open` reads back from a database that exists, `load_persisted_tenants`. The
-- opening itself, the options and the column families that it creates are RocksDB's.
use rocksqueue.Base.{List, [], ◌∷◌, ◌++◌, ℕ, drop, length, if◌then◌else◌, Result, ok, err, and_then}
use rocksqueue.Bytes.{Bytes, starts_with}
use rocksqueue.Policy.{NamespacePolicy}
use rocksqueue.Rocks.Table.{Entry}
use rocksqueue.Rocks.World.{World}
use rocksqueue.Tenant.Names.{cf_system, tenant_meta_prefix}
use rocksqueue.Tenant.State.{Registry, Policies}
use rocksqueue.Tenant.Lifecycle.{policy_insert}

module _ (w : World) where
  unfoldable pub load_loop :
      List (Result Entry) → List (Bytes × NamespacePolicy) → Result (List (Bytes × NamespacePolicy))
  load_loop [] tenants = ok tenants
  load_loop (err e ∷ items) tenants = err e
  load_loop (ok (key, value) ∷ items) tenants =
      let tenant = w.from_utf8_lossy (drop (length tenant_meta_prefix) key) in
      let rest =
        and_then (w.deserialize_policy value)
          λ policy. load_loop items (tenants ++ (tenant, policy) ∷ []) in
      if starts_with tenant_meta_prefix key then rest else ok tenants

  unfoldable pub load_persisted_tenants : w.Db → Result (List (Bytes × NamespacePolicy))
  load_persisted_tenants db =
      let loaded = load_loop (w.scan_from db cf_system tenant_meta_prefix) [] in
      if w.has_cf db cf_system then loaded else ok []

  unfoldable pub insert_all : List (Bytes × NamespacePolicy) → Policies → Policies
  insert_all [] policies = policies
  insert_all ((tenant, policy) ∷ tenants) policies =
      insert_all tenants (policy_insert tenant policy policies)

  -- The registry over the opened database `db`; the counter starts at the clock.
  unfoldable pub open_registry : (now : ℕ) → w.Db → Result (Registry w)
  open_registry now db = and_then (load_persisted_tenants db) λ tenants. ok (record {
    db = db;
    seq = now;
    policies = insert_all tenants [];
    queue_locks = [];
    ack_locks = [];
  })
