-- ===== src/Stats.antt =====
-- stats.rs: the counters of a tenant, their refresh, and the adaptive allocation of slots.
-- Counters are `AtomicU64` and wrap; a time is a reading of the monotonic clock in nanoseconds.
pub mod Allocate
use rocksqueue.Base.{
  ℕ, ◌+◌, ◌*◌, ◌%◌, ◌^◌, Bool, true, false, ◌&&◌, Option, none, some, List, [], ◌∷◌, map,
  if◌then◌else◌, ltb,
}
use rocksqueue.Bytes.{Bytes}
use rocksqueue.Dash.{Dash, get, insert, remove, alter}
use rocksqueue.Float.{F64}

pub record TenantCounters : Type 0 where
  pub enqueue_count : ℕ
  pub ack_count : ℕ
  pub nack_count : ℕ
  pub latency_sum_ms : ℕ
  pub total_enqueued : ℕ
  pub total_acked : ℕ
  pub total_nacked : ℕ

unfoldable pub new_counters : TenantCounters
new_counters = record {
  enqueue_count = 0;
  ack_count = 0;
  nack_count = 0;
  latency_sum_ms = 0;
  total_enqueued = 0;
  total_acked = 0;
  total_nacked = 0;
}

module _ (f : F64) where
  pub record TenantStats : Type 0 where
    pub tenant_id : Bytes
    pub arrival_rate : f.Num
    pub processing_rate : f.Num
    pub avg_task_latency : f.Num
    pub burst_score : f.Num
    pub backlog_ratio : f.Num
    pub last_enqueue_at : ℕ
    pub last_dequeue_at : ℕ
    pub last_alloc_fraction : f.Num
    pub is_new : Bool
    pub total_enqueued : ℕ
    pub total_acked : ℕ
    pub total_nacked : ℕ
    pub stats_version : ℕ

  pub record TenantStatsState : Type 0 where
    pub stats : TenantStats
    pub counters : TenantCounters

  -- `StatsCollector` without the four constants below, which nothing changes.
  abbrev pub Collector : Type 0
  Collector = Dash TenantStatsState

abbrev pub min_guarantee_slots : ℕ
min_guarantee_slots = 5

module _ (f : F64) where
  -- 0.2
  abbrev pub alpha : f.Num
  alpha = f.div (f.of_nat 1) (f.of_nat 5)

  -- `alpha * new + (1.0 - alpha) * old`
  unfoldable pub ema : (new old : f.Num) → f.Num
  ema new old = f.add (f.mul alpha new) (f.mul (f.sub (f.of_nat 1) alpha) old)

  unfoldable pub backlog_ratio_of : (pending inflight : ℕ) → f.Num
  backlog_ratio_of pending inflight =
      let total = (pending + inflight) % 2 ^ 64 in
      if ltb 0 total then f.div (f.of_nat pending) (f.of_nat total) else f.of_nat 0

module _ {f : F64} where
  unfoldable pub register : (now : ℕ) → Bytes → Collector f → Collector f
  register now id c =
      insert id
        (record {
          stats = record {
            tenant_id = id;
            arrival_rate = f.of_nat 0;
            processing_rate = f.of_nat 0;
            avg_task_latency = f.of_nat 0;
            burst_score = f.of_nat 0;
            backlog_ratio = f.of_nat 0;
            last_enqueue_at = now;
            last_dequeue_at = now;
            last_alloc_fraction = f.of_nat 0;
            is_new = true;
            total_enqueued = 0;
            total_acked = 0;
            total_nacked = 0;
            stats_version = 0;
          };
          counters = new_counters;
        })
        c

  unfoldable pub deregister : Bytes → Collector f → Collector f
  deregister id c = remove id c

  unfoldable pub count_with : (TenantCounters → TenantCounters) → Bytes → Collector f → Collector f
  count_with g id c = alter id (λ s. record s { counters = g s.counters }) c

  unfoldable pub record_enqueue : Bytes → ℕ → Collector f → Collector f
  record_enqueue id count c =
      count_with
        (λ k. record k {
          enqueue_count = (k.enqueue_count + count) % 2 ^ 64;
          total_enqueued = (k.total_enqueued + count) % 2 ^ 64;
        })
        id c

  -- `latency_ms` is the latency's `as_millis() as u64`.
  unfoldable pub record_ack_count : Bytes → (count latency_ms : ℕ) → Collector f → Collector f
  record_ack_count id count latency_ms c =
      count_with
        (λ k. record k {
          ack_count = (k.ack_count + count) % 2 ^ 64;
          latency_sum_ms = (k.latency_sum_ms + latency_ms * count % 2 ^ 64) % 2 ^ 64;
          total_acked = (k.total_acked + count) % 2 ^ 64;
        })
        id c

  unfoldable pub record_ack : Bytes → (latency_ms : ℕ) → Collector f → Collector f
  record_ack id latency_ms c = record_ack_count id 1 latency_ms c

  unfoldable pub record_nack : Bytes → Collector f → Collector f
  record_nack id c =
      count_with
        (λ k. record k {
          nack_count = (k.nack_count + 1) % 2 ^ 64;
          total_nacked = (k.total_nacked + 1) % 2 ^ 64;
        })
        id c

  unfoldable pub record_backlog : Bytes → (pending inflight : ℕ) → Collector f → Collector f
  record_backlog id pending inflight c =
      alter id
        (λ s. record s {
          stats = record s.stats { backlog_ratio = backlog_ratio_of f pending inflight };
        })
        c

  unfoldable pub refresh_one : TenantStatsState f → TenantStatsState f
  refresh_one s =
      let k = s.counters in
      let new_arrival = f.of_nat k.enqueue_count in
      let arrival = ema f new_arrival s.stats.arrival_rate in
      let new_proc = f.of_nat ((k.ack_count + k.nack_count) % 2 ^ 64) in
      let new_lat =
        f.div (f.div (f.of_nat k.latency_sum_ms) (f.of_nat k.ack_count)) (f.of_nat 1000) in
      let deviation = f.sub new_arrival arrival in
      record {
        stats = record s.stats {
          arrival_rate = arrival;
          processing_rate = ema f new_proc s.stats.processing_rate;
          avg_task_latency =
              if ltb 0 k.ack_count
              then ema f new_lat s.stats.avg_task_latency
              else s.stats.avg_task_latency;
          burst_score = ema f (f.mul deviation deviation) s.stats.burst_score;
          total_enqueued = k.total_enqueued;
          total_acked = k.total_acked;
          total_nacked = k.total_nacked;
          stats_version = (s.stats.stats_version + 1) % 2 ^ 64;
          is_new = if s.stats.is_new && ltb 0 k.enqueue_count then false else s.stats.is_new;
        };
        counters = record k {
          enqueue_count = 0;
          ack_count = 0;
          nack_count = 0;
          latency_sum_ms = 0;
        };
      }

  unfoldable pub refresh : Collector f → Collector f
  refresh c = map (λ e. (e.0, refresh_one e.1)) c

  unfoldable pub snapshot : Bytes → Collector f → Option (TenantStats f)
  snapshot id c = elim (get id c) [ none ↦ none | some s ↦ some s.stats ]
