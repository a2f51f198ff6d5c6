-- ===== src/Store/Throttles.antt =====
-- The throttle rows are a map from tenants to throttles.
use rocksqueue.Base.{◌≡◌, refl, ◌∙◌, true, none, some, ok, if◌then◌else◌, List, Option}
use rocksqueue.Bytes.{Bytes, beq, starts_with}
use rocksqueue.Float.{F64}
use rocksqueue.Rocks.World.{World, FaultFree}
use rocksqueue.Run.{returns}
use rocksqueue.Tenant.Names.{cf_system}
use rocksqueue.Store.{
  PersistedThrottle, PersistedStats, BaselineRecord, Bincode, throttle_prefix, stats_prefix,
  baseline_prefix, row_key, load_rows, put_row, delete_row, with_cf, persist_throttle,
  clear_throttle, load_all_throttles,
}
use rocksqueue.Store.Rows.{
  rows, find, IsKeyed, rows-put_row, rows-delete_row, has_cf-put_row, has_cf-delete_row,
  find-load-put_row, find-load-delete_row, put_row-IsKeyed, delete_row-IsKeyed,
}

-- bincode writes every row and reads back what it has written.
pub record ReadsBack {f : F64} (bin : Bincode f) : Type 0 where
  pub encode_stats : PersistedStats f → Bytes
  pub stats_written : (r : PersistedStats f) → bin.serialize_stats r ≡ ok (encode_stats r)
  pub stats_read : (r : PersistedStats f) → bin.deserialize_stats (encode_stats r) ≡ ok r
  pub encode_throttle : PersistedThrottle → Bytes
  pub throttle_written : (r : PersistedThrottle) → bin.serialize_throttle r ≡ ok (encode_throttle r)
  pub throttle_read : (r : PersistedThrottle) → bin.deserialize_throttle (encode_throttle r) ≡ ok r
  pub encode_baseline : BaselineRecord f → Bytes
  pub baseline_written : (r : BaselineRecord f) → bin.serialize_baseline r ≡ ok (encode_baseline r)
  pub baseline_read : (r : BaselineRecord f) → bin.deserialize_baseline (encode_baseline r) ≡ ok r

abbrev pub id_of : PersistedThrottle → Bytes
id_of r = r.tenant_id

module _ (w : World) {f : F64} (bin : Bincode f) where
  -- What `load_all_throttles` returns.
  abbrev pub throttles : w.Db → List PersistedThrottle
  throttles db =
      load_rows bin.deserialize_throttle throttle_prefix (w.scan_from db cf_system throttle_prefix)

  -- The throttle of a tenant in the store.
  abbrev pub throttle_in : w.Db → Bytes → Option PersistedThrottle
  throttle_in db id = find bin.deserialize_throttle id_of throttle_prefix id (throttles db)

module _ {w : World} (ff : FaultFree w) {f : F64} (bin : Bincode f) where
  -- `__system__` exists, and every throttle row is its tenant's.
  pub record HasThrottleRows (db : w.Db) : Type 0 where
    pub has_system : w.has_cf db cf_system ≡ true
    pub keyed : IsKeyed bin.deserialize_throttle id_of throttle_prefix (rows ff throttle_prefix db)

  -- What changes from `db` to `db'`: the throttle of one tenant, which is now `r`.
  pub record ThrottleSet (id : Bytes) (r : Option PersistedThrottle) (db db' : w.Db) : Type 0 where
    pub loaded : load_all_throttles w bin db' ≡ returns (throttles w bin db')
    pub changed :
        (j : Bytes) → throttle_in w bin db' j ≡ (if beq id j then r else throttle_in w bin db j)
    pub kept : HasThrottleRows db'
    pub stats_kept : rows ff stats_prefix db' ≡ rows ff stats_prefix db
    pub baselines_kept : rows ff baseline_prefix db' ≡ rows ff baseline_prefix db

  pub load_all_throttles_lem :
      (db : w.Db)
      → w.has_cf db cf_system ≡ true
      → load_all_throttles w bin db ≡ returns (throttles w bin db)
  unfolding load_all_throttles with_cf
  load_all_throttles_lem db h = rw h refl

  -- On a database where no call fails, storing a throttle succeeds: afterwards the store has it
  -- for its tenant, whatever was stored for the tenant before, the other tenants have the throttles that
  -- they had, and the rows of statistics and of baselines are as they were.
  pub persist_throttle_lem :
      (back : ReadsBack bin) (state : PersistedThrottle) (db : w.Db)
      → HasThrottleRows db
      → (db' : w.Db) × (persist_throttle w bin state db ≡ returns db')
        × ThrottleSet state.tenant_id (some state) db db'
  unfolding persist_throttle with_cf starts_with
  persist_throttle_lem back state db h =
      let key = row_key throttle_prefix state.tenant_id in
      let v = back.encode_throttle state in
      let db' = put_row w key (ok v) db in
      let has' = has_cf-put_row ff db h.has_system key v cf_system ∙ h.has_system in
      let decode = bin.deserialize_throttle in
      (
        db',
        rw (h.has_system, back.throttle_written) refl,
        record {
          loaded = load_all_throttles_lem db' has';
          changed = λ j.
              find-load-put_row ff db h.has_system decode id_of throttle_prefix h.keyed state v j
                (back.throttle_read state);
          kept = record {
            has_system = has';
            keyed =
                put_row-IsKeyed ff db h.has_system decode id_of throttle_prefix h.keyed state v
                  (back.throttle_read state);
          };
          stats_kept = rows-put_row ff db h.has_system stats_prefix key v refl;
          baselines_kept = rows-put_row ff db h.has_system baseline_prefix key v refl;
        },
      )

  -- On a database where no call fails, clearing a tenant's throttle succeeds: afterwards the store
  -- has none for the tenant, and everything else is as it was.
  pub clear_throttle_lem :
      (id : Bytes) (db : w.Db)
      → HasThrottleRows db
      → (db' : w.Db) × (clear_throttle w bin id db ≡ returns db') × ThrottleSet id none db db'
  unfolding clear_throttle with_cf starts_with
  clear_throttle_lem id db h =
      let key = row_key throttle_prefix id in
      let db' = delete_row w key db in
      let has' = has_cf-delete_row ff db h.has_system key cf_system ∙ h.has_system in
      let decode = bin.deserialize_throttle in
      (
        db',
        rw h.has_system refl,
        record {
          loaded = load_all_throttles_lem db' has';
          changed = find-load-delete_row ff db h.has_system decode id_of throttle_prefix h.keyed id;
          kept = record {
            has_system = has';
            keyed = delete_row-IsKeyed ff db h.has_system decode id_of throttle_prefix h.keyed id;
          };
          stats_kept = rows-delete_row ff db h.has_system stats_prefix key refl;
          baselines_kept = rows-delete_row ff db h.has_system baseline_prefix key refl;
        },
      )
