-- ===== src/Store/Baselines.antt =====
-- baseline.rs: `register` and `flush` of `BaselineRegistry`, by way of the store, and what is read
-- back of a flush.
use rocksqueue.Base.{
  ℕ, ◌≡◌, refl, ap, ◌∙◌, true, none, some, ok, if◌then◌else◌, List, [], ◌∷◌, map, Option,
  Bool-cases, inl, inr,
}
use rocksqueue.Baseline.{TenantBaseline, new_baseline_of}
use rocksqueue.Bytes.{Bytes, beq}
use rocksqueue.Dash.{Dash, insert}
use rocksqueue.Float.{F64}
use rocksqueue.Rocks.Table.{lookup}
use rocksqueue.Rocks.Table.Lookup.{lookup-put}
use rocksqueue.Rocks.World.{World, FaultFree}
use rocksqueue.Run.{Run, returns, and_run}
use rocksqueue.Tenant.Names.{cf_system}
use rocksqueue.Store.{
  BaselineRecord, Bincode, baseline_prefix, baseline_record, row_key, row_of, put_row, with_cf,
  flush_baselines, flush_baselines_loop, load_baseline,
}
use rocksqueue.Store.Rows.{beq-append, table-put_row, has_cf-put_row}
use rocksqueue.Store.Throttles.{ReadsBack}

module _ (w : World) {f : F64} (bin : Bincode f) where
  -- A baseline that is warm from the store.
  unfoldable pub warmed : (now : ℕ) → Bytes → BaselineRecord f → TenantBaseline f
  warmed now id record_ = record (new_baseline_of f now id record_.long_ema) {
    short_ema = record_.short_ema;
    long_ema = record_.long_ema;
    spike_threshold = record_.spike_threshold;
  }

  unfoldable pub register_baseline :
      (now : ℕ) (tenant_id : Bytes) (initial_rate : f.Num)
      → Dash (TenantBaseline f)
      → w.Db
      → Run (Dash (TenantBaseline f))
  register_baseline now id initial_rate m db = and_run (load_baseline w bin id db) (λ found.
      returns (
        insert id
          (elim found [ some r ↦ warmed now id r | none ↦ new_baseline_of f now id initial_rate ])
          m))

  -- `flush` of the registry: all of its baselines.
  unfoldable pub flush_registry : (now : ℕ) → Dash (TenantBaseline f) → w.Db → Run w.Db
  flush_registry now m = flush_baselines w bin now (map (λ e. e.1) m)

module _ {w : World} (ff : FaultFree w) {f : F64} (bin : Bincode f) (id : Bytes) where
  pub load_baseline_ok :
      (db : w.Db)
      → w.has_cf db cf_system ≡ true
      → load_baseline w bin id db
        ≡ returns (
            row_of bin.deserialize_baseline
              (ok (lookup (row_key baseline_prefix id) (ff.table db cf_system))))
  unfolding load_baseline with_cf
  load_baseline_ok db h = rw (h, ff.get_cf_lem db cf_system (row_key baseline_prefix id) h) refl

module _ {w : World} (ff : FaultFree w) {f : F64} (bin : Bincode f) (back : ReadsBack bin) (now : ℕ)
    (id : Bytes) where
  -- The record of the tenant's last baseline in the list, or else `old`.
  unfoldable pub latest :
      List (TenantBaseline f) → Option (BaselineRecord f) → Option (BaselineRecord f)
  latest [] old = old
  latest (b ∷ bs) old = latest bs (
      if beq b.tenant_id id
      then some (record {
        tenant_id = b.tenant_id;
        short_ema = b.short_ema;
        long_ema = b.long_ema;
        spike_threshold = b.spike_threshold;
        saved_at_ms = now;
      })
      else old)

  flush_loop :
      (bs : List (TenantBaseline f)) (db : w.Db)
      → w.has_cf db cf_system ≡ true
      → (w.has_cf (flush_baselines_loop w bin now bs db) cf_system ≡ true)
        × (load_baseline w bin id (flush_baselines_loop w bin now bs db)
            ≡ returns (
                latest bs (
                  row_of bin.deserialize_baseline
                    (ok (lookup (row_key baseline_prefix id) (ff.table db cf_system))))))
  unfolding flush_baselines_loop latest row_of baseline_record
  flush_loop [] db h = (h, load_baseline_ok ff bin id db h)
  flush_loop (b ∷ bs) db h =
      let r = baseline_record w bin now b in
      let key = row_key baseline_prefix b.tenant_id in
      let v = back.encode_baseline r in
      let rest =
        flush_loop bs (put_row w key (ok v) db) (has_cf-put_row ff db h key v cf_system ∙ h) in
      let at : row_of bin.deserialize_baseline (
            ok (lookup (row_key baseline_prefix id) (ff.table (put_row w key (ok v) db) cf_system)))
          ≡ (if beq b.tenant_id id
              then some r
              else row_of bin.deserialize_baseline
                  (ok (lookup (row_key baseline_prefix id) (ff.table db cf_system)))) =
        rw (table-put_row ff db h key v, lookup-put, beq-append baseline_prefix b.tenant_id id)
          (elim (Bool-cases (beq b.tenant_id id)) [
            | inl x ↦ rw x (rw (row_of, back.baseline_read r) refl)
            | inr x ↦ rw x refl
          ]) in
      rw (back.baseline_written r) (rest.0, rest.1 ∙ ap (λ o. returns (latest bs o)) at)

  -- On a database where no call fails, a flush of baselines succeeds, and what is loaded for a
  -- tenant afterwards has the averages and the threshold of its last baseline in the list, and the time
  -- of the flush, or, if it has none there, is what was loaded for it before.
  pub flush-load :
      (bs : List (TenantBaseline f)) (db : w.Db) (old : Option (BaselineRecord f))
      → w.has_cf db cf_system ≡ true
      → load_baseline w bin id db ≡ returns old
      → (db' : w.Db) × (flush_baselines w bin now bs db ≡ returns db')
        × (load_baseline w bin id db' ≡ returns (latest bs old))
  unfolding flush_baselines with_cf
  flush-load bs db old h l =
      let same : row_of bin.deserialize_baseline
            (ok (lookup (row_key baseline_prefix id) (ff.table db cf_system)))
          ≡ old =
        cc (load_baseline_ok ff bin id db h) in
      (
        flush_baselines_loop w bin now bs db,
        rw h refl,
        (flush_loop bs db h).1 ∙ ap (λ o. returns (latest bs o)) same,
      )
