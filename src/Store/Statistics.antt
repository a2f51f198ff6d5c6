-- ===== src/Store/Statistics.antt =====
-- What is read back of a flush of statistics.
use rocksqueue.Base.{
  ℕ, ◌-◌, ◌≡◌, refl, ap, ◌∙◌, true, some, ok, if◌then◌else◌, List, [], ◌∷◌, map, Option, Bool-cases,
  inl, inr,
}
use mathlib.Core.Option.{map as option_map}
use rocksqueue.Bytes.{Bytes, beq}
use rocksqueue.Float.{F64}
use rocksqueue.Rocks.World.{World, FaultFree}
use rocksqueue.Run.{returns}
use rocksqueue.Stats.{TenantStats}
use rocksqueue.Tenant.Names.{cf_system}
use rocksqueue.Store.{
  PersistedStats, Bincode, stats_prefix, stats_record, row_key, load_rows, put_row, with_cf,
  flush_stats, flush_stats_loop, load_all_stats, decayed,
}
use rocksqueue.Store.Rows.{rows, find, IsKeyed, has_cf-put_row, put_row-IsKeyed, find-load-put_row}
use rocksqueue.Store.Throttles.{ReadsBack}

abbrev pub stats_id : {f : F64} → PersistedStats f → Bytes
stats_id r = r.tenant_id

module _ (w : World) {f : F64} (bin : Bincode f) where
  abbrev pub stats_rows : w.Db → List (PersistedStats f)
  stats_rows db =
      load_rows bin.deserialize_stats stats_prefix (w.scan_from db cf_system stats_prefix)

  -- The first record of the tenant among records.
  abbrev pub stats_of : Bytes → List (PersistedStats f) → Option (PersistedStats f)
  stats_of id l = find bin.deserialize_stats stats_id stats_prefix id l

module _ (f : F64) where
  -- Half as much for every minute of `ms` milliseconds.
  abbrev pub halvings : (ms : ℕ) → f.Num
  halvings ms =
      f.powf (f.of_nat 2) (f.neg (f.div (f.div (f.of_nat ms) (f.of_nat 1000)) (f.of_nat 60)))

  -- What is left of a record after the time since its flush: of the arrival rate, the burst and the
  -- backlog `halvings`, of the other two rates the mean of that and of all.
  abbrev pub faded : (later : ℕ) → PersistedStats f → PersistedStats f
  faded later r =
      let d = halvings (later - r.flushed_at_ms) in
      let mean = f.div (f.add d (f.of_nat 1)) (f.of_nat 2) in
      record {
        tenant_id = r.tenant_id;
        arrival_rate = f.mul r.arrival_rate d;
        processing_rate = f.mul r.processing_rate mean;
        avg_task_latency = f.mul r.avg_task_latency mean;
        burst_score = f.mul r.burst_score d;
        backlog_ratio = f.mul r.backlog_ratio d;
        total_enqueued = r.total_enqueued;
        total_acked = r.total_acked;
        total_nacked = r.total_nacked;
        stats_version = r.stats_version;
        flushed_at_ms = r.flushed_at_ms;
      }

module _ {w : World} (ff : FaultFree w) {f : F64} (bin : Bincode f) where
  -- `__system__` exists, and every row of statistics is its tenant's.
  pub record HasStatsRows (db : w.Db) : Type 0 where
    pub has_system : w.has_cf db cf_system ≡ true
    pub keyed : IsKeyed bin.deserialize_stats stats_id stats_prefix (rows ff stats_prefix db)

module _ {w : World} (ff : FaultFree w) {f : F64} (bin : Bincode f) (back : ReadsBack bin)
    (id : Bytes) where
  -- The record of the tenant's last statistics in the list, or else `old`.
  unfoldable pub latest_stats :
      (now : ℕ) → List (TenantStats f) → Option (PersistedStats f) → Option (PersistedStats f)
  latest_stats now [] old = old
  latest_stats now (s ∷ ss) old = latest_stats now ss (
      if beq s.tenant_id id
      then some (record {
        tenant_id = s.tenant_id;
        arrival_rate = s.arrival_rate;
        processing_rate = s.processing_rate;
        avg_task_latency = s.avg_task_latency;
        burst_score = s.burst_score;
        backlog_ratio = s.backlog_ratio;
        total_enqueued = s.total_enqueued;
        total_acked = s.total_acked;
        total_nacked = s.total_nacked;
        stats_version = s.stats_version;
        flushed_at_ms = now;
      })
      else old)

  flush_loop :
      (now : ℕ) (ss : List (TenantStats f)) (db : w.Db)
      → HasStatsRows ff bin db
      → HasStatsRows ff bin (flush_stats_loop w bin now ss db)
        × (stats_of w bin id (stats_rows w bin (flush_stats_loop w bin now ss db))
            ≡ latest_stats now ss (stats_of w bin id (stats_rows w bin db)))
  unfolding flush_stats_loop latest_stats stats_record
  flush_loop now [] db h = (h, refl)
  flush_loop now (s ∷ ss) db h =
      let r = stats_record w bin now s in
      let key = row_key stats_prefix s.tenant_id in
      let v = back.encode_stats r in
      let decode = bin.deserialize_stats in
      let rest = flush_loop now ss (put_row w key (ok v) db) (record {
        has_system = has_cf-put_row ff db h.has_system key v cf_system ∙ h.has_system;
        keyed =
            put_row-IsKeyed ff db h.has_system decode stats_id stats_prefix h.keyed r v
              (back.stats_read r);
      }) in
      rw (back.stats_written r) (
        rest.0,
        rest.1
            ∙ ap (latest_stats now ss) (
                find-load-put_row ff db h.has_system decode stats_id stats_prefix h.keyed r v id
                  (back.stats_read r)),
      )

  find-decayed :
      (now : ℕ) (l : List (PersistedStats f))
      → stats_of w bin id (map (decayed w bin now) l)
        ≡ option_map (decayed w bin now) (stats_of w bin id l)
  unfolding find decayed
  find-decayed now [] = refl
  find-decayed now (r ∷ l) = elim (Bool-cases (beq r.tenant_id id)) [
    | inl e ↦ rw e refl
    | inr e ↦ rw e (find-decayed now l)
  ]

  -- On a database where no call fails, a flush of statistics succeeds, and a later load succeeds;
  -- what it has for a tenant are the tenant's last statistics in the list, or, if it has none
  -- there, what was stored before, as they have faded since they were flushed: the counters and
  -- the version as they were, and the rates halved once a minute or the mean of that and of all.
  pub flush_stats-load :
      (now later : ℕ) (ss : List (TenantStats f)) (db : w.Db)
      → HasStatsRows ff bin db
      → (db' : w.Db) × (loaded : List (PersistedStats f)) × (flush_stats w bin now ss db
          ≡ returns db')
        × (load_all_stats w bin later db' ≡ returns loaded)
        × (stats_of w bin id loaded
            ≡ option_map
                (faded f later)
                (latest_stats now ss (stats_of w bin id (stats_rows w bin db))))
  unfolding flush_stats load_all_stats with_cf decayed
  flush_stats-load now later ss db h =
      let r = flush_loop now ss db h in
      let db' = flush_stats_loop w bin now ss db in
      (
        db',
        map (decayed w bin later) (stats_rows w bin db'),
        rw h.has_system refl,
        rw r.0.has_system refl,
        find-decayed later (stats_rows w bin db') ∙ ap (option_map (decayed w bin later)) r.1,
      )
