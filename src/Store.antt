-- ===== src/Store.antt =====
-- stats_store.rs: the rows of `__system__` that hold statistics, throttles and baselines. A failed
-- call is logged and has no other effect, so it is not in the results. A put or a delete is a
-- batch of one. `now` is the clock of the method.
pub mod Rows
pub mod Throttles
pub mod Baselines
pub mod Statistics
use rocksqueue.Base.{
  ℕ, ◌+◌, ◌-◌, Bool, true, false, Option, none, some, List, [], ◌∷◌, ◌++◌, map, Result, ok, err,
  if◌then◌else◌,
}
use rocksqueue.Baseline.{TenantBaseline}
use rocksqueue.Bytes.{Bytes, starts_with}
use rocksqueue.Float.{F64}
use rocksqueue.Rocks.Table.{Entry, put_cf, delete_cf}
use rocksqueue.Rocks.World.{World}
use rocksqueue.Run.{Run, returns, panics}
use rocksqueue.Stats.{TenantStats}
use rocksqueue.Tenant.Names.{cf_system}

pub record PersistedThrottle : Type 0 where
  pub tenant_id : Bytes
  pub throttled : Bool
  pub reason : Bytes
  pub original_rate : ℕ
  pub applied_rate : ℕ
  pub triggered_at_ms : ℕ
  pub cooldown_until_ms : ℕ

module _ (f : F64) where
  pub record PersistedStats : Type 0 where
    pub tenant_id : Bytes
    pub arrival_rate : f.Num
    pub processing_rate : f.Num
    pub avg_task_latency : f.Num
    pub burst_score : f.Num
    pub backlog_ratio : f.Num
    pub total_enqueued : ℕ
    pub total_acked : ℕ
    pub total_nacked : ℕ
    pub stats_version : ℕ
    pub flushed_at_ms : ℕ

  pub record BaselineRecord : Type 0 where
    pub tenant_id : Bytes
    pub short_ema : f.Num
    pub long_ema : f.Num
    pub spike_threshold : f.Num
    pub saved_at_ms : ℕ

  -- bincode on the three kinds of rows
  pub record Bincode : Type 0 where
    pub serialize_stats : PersistedStats → Result Bytes
    pub deserialize_stats : Bytes → Result PersistedStats
    pub serialize_throttle : PersistedThrottle → Result Bytes
    pub deserialize_throttle : Bytes → Result PersistedThrottle
    pub serialize_baseline : BaselineRecord → Result Bytes
    pub deserialize_baseline : Bytes → Result BaselineRecord

-- "stats:"
abbrev pub stats_prefix : Bytes
stats_prefix = b's' ∷ b't' ∷ b'a' ∷ b't' ∷ b's' ∷ b':' ∷ []

-- "throttle:"
abbrev pub throttle_prefix : Bytes
throttle_prefix = b't' ∷ b'h' ∷ b'r' ∷ b'o' ∷ b't' ∷ b't' ∷ b'l' ∷ b'e' ∷ b':' ∷ []

-- "baseline:"
abbrev pub baseline_prefix : Bytes
baseline_prefix = b'b' ∷ b'a' ∷ b's' ∷ b'e' ∷ b'l' ∷ b'i' ∷ b'n' ∷ b'e' ∷ b':' ∷ []

-- `format!("stats:{}", tenant_id)` and its like
abbrev pub row_key : (prefix tenant_id : Bytes) → Bytes
row_key prefix tenant_id = prefix ++ tenant_id

-- The loop over an iteration from the prefix on.
unfoldable pub load_rows :
    {A : Type 0} (decode : Bytes → Result A) (prefix : Bytes) → List (Result Entry) → List A
load_rows decode prefix [] = []
load_rows decode prefix (err e ∷ items) = load_rows decode prefix items
load_rows decode prefix (ok (key, value) ∷ items) =
    let rest = load_rows decode prefix items in
    if starts_with prefix key then elim (decode value) [ ok a ↦ a ∷ rest | err e ↦ rest ] else []

-- A row that is absent, cannot be read or cannot be decoded is no row.
unfoldable pub row_of : {A : Type 0} (decode : Bytes → Result A) → Result (Option Bytes) → Option A
row_of decode (err e) = none
row_of decode (ok none) = none
row_of decode (ok (some value)) = elim (decode value) [ ok a ↦ some a | err e ↦ none ]

module _ (w : World) where
  -- `cf_handle(CF_SYSTEM).expect(..)`, then the rest of the method.
  unfoldable pub with_cf : {A : Type 0} → (w.Db → A) → w.Db → Run A
  with_cf g db = if w.has_cf db cf_system then returns (g db) else panics

  unfoldable pub put_row : (key : Bytes) → Result Bytes → w.Db → w.Db
  put_row key (ok value) db = (w.write (put_cf cf_system key value ∷ []) db).1
  put_row key (err e) db = db

  unfoldable pub delete_row : (key : Bytes) → w.Db → w.Db
  delete_row key db = (w.write (delete_cf cf_system key ∷ []) db).1

module _ (w : World) {f : F64} (bin : Bincode f) where
  unfoldable pub stats_record : (now : ℕ) → TenantStats f → PersistedStats f
  stats_record now s = record {
    tenant_id = s.tenant_id;
    arrival_rate = s.arrival_rate;
    processing_rate = s.processing_rate;
    avg_task_latency = s.avg_task_latency;
    burst_score = s.burst_score;
    backlog_ratio = s.backlog_ratio;
    total_enqueued = s.total_enqueued;
    total_acked = s.total_acked;
    total_nacked = s.total_nacked;
    stats_version = s.stats_version;
    flushed_at_ms = now;
  }

  unfoldable pub flush_stats_loop : (now : ℕ) → List (TenantStats f) → w.Db → w.Db
  flush_stats_loop now [] db = db
  flush_stats_loop now (s ∷ stats) db =
      flush_stats_loop now stats
        (put_row w (row_key stats_prefix s.tenant_id) (bin.serialize_stats (stats_record now s)) db)

  unfoldable pub flush_stats : (now : ℕ) → List (TenantStats f) → w.Db → Run w.Db
  flush_stats now stats = with_cf w (flush_stats_loop now stats)

  -- Values decay with the time offline.
  unfoldable pub decayed : (now : ℕ) → PersistedStats f → PersistedStats f
  decayed now r =
      let offline_secs = f.div (f.of_nat (now - r.flushed_at_ms)) (f.of_nat 1000) in
      let offline_mins = f.div offline_secs (f.of_nat 60) in
      let decay = f.powf (f.of_nat 2) (f.neg offline_mins) in
      let half = f.div (f.add decay (f.of_nat 1)) (f.of_nat 2) in
      record r {
        arrival_rate = f.mul r.arrival_rate decay;
        burst_score = f.mul r.burst_score decay;
        backlog_ratio = f.mul r.backlog_ratio decay;
        processing_rate = f.mul r.processing_rate half;
        avg_task_latency = f.mul r.avg_task_latency half;
      }

  unfoldable pub load_all_stats : (now : ℕ) → w.Db → Run (List (PersistedStats f))
  load_all_stats now = with_cf w (λ db.
      map (decayed now)
        (load_rows bin.deserialize_stats stats_prefix (w.scan_from db cf_system stats_prefix)))

  unfoldable pub persist_throttle : PersistedThrottle → w.Db → Run w.Db
  persist_throttle state =
      with_cf w (put_row w (row_key throttle_prefix state.tenant_id) (bin.serialize_throttle state))

  unfoldable pub clear_throttle : (tenant_id : Bytes) → w.Db → Run w.Db
  clear_throttle tenant_id = with_cf w (delete_row w (row_key throttle_prefix tenant_id))

  unfoldable pub load_all_throttles : w.Db → Run (List PersistedThrottle)
  load_all_throttles = with_cf w (λ db.
      load_rows bin.deserialize_throttle throttle_prefix (w.scan_from db cf_system throttle_prefix))

  unfoldable pub baseline_record : (now : ℕ) → TenantBaseline f → BaselineRecord f
  baseline_record now b = record {
    tenant_id = b.tenant_id;
    short_ema = b.short_ema;
    long_ema = b.long_ema;
    spike_threshold = b.spike_threshold;
    saved_at_ms = now;
  }

  unfoldable pub flush_baselines_loop : (now : ℕ) → List (TenantBaseline f) → w.Db → w.Db
  flush_baselines_loop now [] db = db
  flush_baselines_loop now (b ∷ baselines) db = flush_baselines_loop now baselines (
      put_row w (row_key baseline_prefix b.tenant_id)
        (bin.serialize_baseline (baseline_record now b)) db)

  unfoldable pub flush_baselines : (now : ℕ) → List (TenantBaseline f) → w.Db → Run w.Db
  flush_baselines now baselines = with_cf w (flush_baselines_loop now baselines)

  unfoldable pub load_baseline : (tenant_id : Bytes) → w.Db → Run (Option (BaselineRecord f))
  load_baseline tenant_id = with_cf w (λ db.
      row_of bin.deserialize_baseline (w.get_cf db cf_system (row_key baseline_prefix tenant_id)))

  unfoldable pub clear_baseline : (tenant_id : Bytes) → w.Db → Run w.Db
  clear_baseline tenant_id = with_cf w (delete_row w (row_key baseline_prefix tenant_id))
