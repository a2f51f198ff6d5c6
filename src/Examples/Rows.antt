-- ===== src/Examples/Rows.antt =====
-- Rows as bytes, and the theorems on the store of statistics, throttles and baselines.
use rocksqueue.Base.{
  zero, suc, arith, ℕ, ◌≡◌, refl, Bool, true, false, none, some, List, [], ◌∷◌, Result, ok, err,
  serialization, take, drop, take-length-append, drop-length-append,
}
use rocksqueue.Baseline.{TenantBaseline, new_baseline_of}
use rocksqueue.Bytes.{Bytes, beq}
use rocksqueue.Rocks.Table.{apply, prefixed, lookup}
use rocksqueue.Run.{returns}
use rocksqueue.Stats.{TenantStats}
use rocksqueue.Tenant.Names.{cf_pending, cf_inflight, cf_dlq, cf_system}
use rocksqueue.Store.{
  PersistedThrottle, PersistedStats, BaselineRecord, Bincode, stats_record, load_baseline, row_of,
  with_cf,
}
use rocksqueue.Store.Baselines.{flush-load, latest}
use rocksqueue.Store.Statistics.{faded, HasStatsRows, flush_stats-load, latest_stats, stats_of}
use rocksqueue.Store.Throttles.{ReadsBack, HasThrottleRows, persist_throttle_lem, throttle_in}
use rocksqueue.Memory.{Memory, memory, fault_free, has_name, contents, text}
use rocksqueue.Examples.{tenant, names}
use rocksqueue.Examples.Workers.{thousandths}

flag : Bool → ℕ
flag true = 1
flag false = 0

is_set : ℕ → Bool
is_set zero = false
is_set (suc n) = true

is_set-flag : (b : Bool) → is_set (flag b) ≡ b
unfolding is_set flag
is_set-flag true = ground arith
is_set-flag false = refl

pub encode_throttle : PersistedThrottle → Bytes
unfolding flag
encode_throttle r = text r.tenant_id (
    text r.reason (
      flag r.throttled
      ∷ r.original_rate
      ∷ r.applied_rate
      ∷ r.triggered_at_ms
      ∷ r.cooldown_until_ms
      ∷ []))

throttle_end : (tenant_id reason : Bytes) → Bytes → Result PersistedThrottle
throttle_end tenant_id reason (b ∷ o ∷ a ∷ t ∷ c ∷ []) = ok (record {
  tenant_id = tenant_id;
  throttled = is_set b;
  reason = reason;
  original_rate = o;
  applied_rate = a;
  triggered_at_ms = t;
  cooldown_until_ms = c;
})
throttle_end tenant_id reason _ = err (serialization 0)

throttle_reason : (tenant_id : Bytes) → Bytes → Result PersistedThrottle
throttle_reason tenant_id [] = err (serialization 0)
throttle_reason tenant_id (n ∷ bs) = throttle_end tenant_id (take n bs) (drop n bs)

pub decode_throttle : Bytes → Result PersistedThrottle
decode_throttle [] = err (serialization 0)
decode_throttle (n ∷ bs) = throttle_reason (take n bs) (drop n bs)

decode-encode_throttle : (r : PersistedThrottle) → decode_throttle (encode_throttle r) ≡ ok r
unfolding decode_throttle throttle_reason throttle_end encode_throttle text flag
decode-encode_throttle r = simp (take-length-append, drop-length-append, is_set-flag)

pub encode_stats : PersistedStats thousandths → Bytes
encode_stats r = text r.tenant_id (
    r.arrival_rate ∷ r.processing_rate ∷ r.avg_task_latency ∷ r.burst_score ∷ r.backlog_ratio
    ∷ r.total_enqueued ∷ r.total_acked ∷ r.total_nacked ∷ r.stats_version ∷ r.flushed_at_ms ∷ [])

stats_end : (tenant_id : Bytes) → Bytes → Result (PersistedStats thousandths)
stats_end tenant_id (a ∷ b ∷ c ∷ d ∷ e ∷ f ∷ g ∷ h ∷ i ∷ j ∷ []) = ok (record {
  tenant_id = tenant_id;
  arrival_rate = a;
  processing_rate = b;
  avg_task_latency = c;
  burst_score = d;
  backlog_ratio = e;
  total_enqueued = f;
  total_acked = g;
  total_nacked = h;
  stats_version = i;
  flushed_at_ms = j;
})
stats_end tenant_id _ = err (serialization 0)

pub decode_stats : Bytes → Result (PersistedStats thousandths)
decode_stats [] = err (serialization 0)
decode_stats (n ∷ bs) = stats_end (take n bs) (drop n bs)

decode-encode_stats : (r : PersistedStats thousandths) → decode_stats (encode_stats r) ≡ ok r
unfolding decode_stats stats_end encode_stats text
decode-encode_stats r = simp (take-length-append, drop-length-append)

pub encode_baseline : BaselineRecord thousandths → Bytes
encode_baseline r =
    text r.tenant_id (r.short_ema ∷ r.long_ema ∷ r.spike_threshold ∷ r.saved_at_ms ∷ [])

baseline_end : (tenant_id : Bytes) → Bytes → Result (BaselineRecord thousandths)
baseline_end tenant_id (a ∷ b ∷ c ∷ d ∷ []) = ok (record {
  tenant_id = tenant_id;
  short_ema = a;
  long_ema = b;
  spike_threshold = c;
  saved_at_ms = d;
})
baseline_end tenant_id _ = err (serialization 0)

pub decode_baseline : Bytes → Result (BaselineRecord thousandths)
decode_baseline [] = err (serialization 0)
decode_baseline (n ∷ bs) = baseline_end (take n bs) (drop n bs)

decode-encode_baseline :
    (r : BaselineRecord thousandths) → decode_baseline (encode_baseline r) ≡ ok r
unfolding decode_baseline baseline_end encode_baseline text
decode-encode_baseline r = simp (take-length-append, drop-length-append)

unfoldable pub bincode : Bincode thousandths
bincode = record {
  serialize_stats = λ r. ok (encode_stats r);
  deserialize_stats = decode_stats;
  serialize_throttle = λ r. ok (encode_throttle r);
  deserialize_throttle = decode_throttle;
  serialize_baseline = λ r. ok (encode_baseline r);
  deserialize_baseline = decode_baseline;
}

pub bincode-ReadsBack : ReadsBack bincode
unfolding bincode
bincode-ReadsBack = record {
  encode_stats = encode_stats;
  stats_written = λ r. refl;
  stats_read = decode-encode_stats;
  encode_throttle = encode_throttle;
  throttle_written = λ r. refl;
  throttle_read = decode-encode_throttle;
  encode_baseline = encode_baseline;
  baseline_written = λ r. refl;
  baseline_read = decode-encode_baseline;
}

-- The tenant's column families and `__system__`, with no record.
abbrev pub blank_db : Memory
blank_db = record { names = names; log = [] }

pub blank-HasThrottleRows : HasThrottleRows fault_free bincode blank_db
unfolding has_name cf_pending cf_inflight cf_dlq cf_system beq contents apply prefixed fault_free
blank-HasThrottleRows = record { has_system = refl; keyed = tt }

blank-HasStatsRows : HasStatsRows fault_free bincode blank_db
unfolding has_name cf_pending cf_inflight cf_dlq cf_system beq contents apply prefixed fault_free
blank-HasStatsRows = record { has_system = refl; keyed = tt }

abbrev pub cooling : PersistedThrottle
cooling = record {
  tenant_id = tenant;
  throttled = true;
  reason = 1 ∷ [];
  original_rate = 100;
  applied_rate = 25;
  triggered_at_ms = 1000;
  cooldown_until_ms = 31_000;
}

persist_throttle_lem_example :
    throttle_in memory bincode
      (persist_throttle_lem fault_free bincode bincode-ReadsBack cooling blank_db
        blank-HasThrottleRows).0
      tenant
    ≡ some cooling
unfolding beq
persist_throttle_lem_example =
    (persist_throttle_lem fault_free bincode bincode-ReadsBack cooling blank_db
        blank-HasThrottleRows).2.changed
      tenant

abbrev baselines : List (TenantBaseline thousandths)
baselines = new_baseline_of thousandths 5 tenant 40 ∷ []

nothing_loaded : load_baseline memory bincode tenant blank_db ≡ returns none
unfolding load_baseline with_cf row_of has_name cf_pending cf_inflight cf_dlq cf_system beq contents
    apply lookup
nothing_loaded = refl

flush-load_example :
    load_baseline memory bincode tenant
      (flush-load fault_free bincode bincode-ReadsBack 9 tenant baselines blank_db none
        blank-HasThrottleRows.has_system nothing_loaded).0
    ≡ returns (
        some (record {
          tenant_id = tenant;
          short_ema = 40;
          long_ema = 40;
          spike_threshold = 10_000;
          saved_at_ms = 9;
        }))
unfolding latest beq new_baseline_of
flush-load_example =
    (flush-load fault_free bincode bincode-ReadsBack 9 tenant baselines blank_db none
      blank-HasThrottleRows.has_system nothing_loaded).2

abbrev pub busy : TenantStats thousandths
busy = record {
  tenant_id = tenant;
  arrival_rate = 80_000;
  processing_rate = 60_000;
  avg_task_latency = 2000;
  burst_score = 9000;
  backlog_ratio = 900;
  last_enqueue_at = 0;
  last_dequeue_at = 0;
  last_alloc_fraction = 0;
  is_new = false;
  total_enqueued = 800;
  total_acked = 600;
  total_nacked = 3;
  stats_version = 12;
}

flush_stats-load_example :
    stats_of memory bincode tenant
      (flush_stats-load fault_free bincode bincode-ReadsBack tenant 1000 61_000
        (busy ∷ [])
        blank_db
        blank-HasStatsRows).1
    ≡ some (
        faded thousandths 61_000 (record {
          tenant_id = tenant;
          arrival_rate = 80_000;
          processing_rate = 60_000;
          avg_task_latency = 2000;
          burst_score = 9000;
          backlog_ratio = 900;
          total_enqueued = 800;
          total_acked = 600;
          total_nacked = 3;
          stats_version = 12;
          flushed_at_ms = 1000;
        }))
unfolding latest_stats beq stats_record
flush_stats-load_example =
    (flush_stats-load fault_free bincode bincode-ReadsBack tenant 1000 61_000 (busy ∷ []) blank_db
      blank-HasStatsRows).4
