-- ===== src/Compaction.antt =====
-- compaction.rs: the filters that RocksDB calls with each value while it compacts a column
-- family, and the counters that they keep. The counters are `u64`s and wrap.
pub mod Laws
use rocksqueue.Base.{
  ℕ, ◌+◌, ◌-◌, ◌*◌, ◌%◌, ◌^◌, ◌==◌, Bool, true, false, if◌then◌else◌, ltb, Result, ok, err,
}
use rocksqueue.Bytes.{Bytes}
use rocksqueue.Rocks.World.{World}
use rocksqueue.Task.{Task}

pub record CompactionCounters : Type 0 where
  pub pending_expired : ℕ
  pub dlq_expired : ℕ
  pub inflight_stale : ℕ
  pub kept : ℕ

abbrev pub new_counters : CompactionCounters
new_counters = record { pending_expired = 0; dlq_expired = 0; inflight_stale = 0; kept = 0 }

pub data Decision : Type 0 where
  keep remove : Decision

-- `fetch_add(1)` on each of the counters
abbrev count_up : ℕ → ℕ
count_up n = (n + 1) % 2 ^ 64

abbrev count_kept : CompactionCounters → Decision × CompactionCounters
count_kept c = (keep, record c { kept = count_up c.kept })

abbrev count_pending : CompactionCounters → Decision × CompactionCounters
count_pending c = (remove, record c { pending_expired = count_up c.pending_expired })

abbrev count_dlq : CompactionCounters → Decision × CompactionCounters
count_dlq c = (remove, record c { dlq_expired = count_up c.dlq_expired })

abbrev count_stale : CompactionCounters → Decision × CompactionCounters
count_stale c = (remove, record c { inflight_stale = count_up c.inflight_stale })

-- `now_millis().saturating_sub(task.enqueued_at) > retention_secs * 1000`, the product a `u64`.
unfoldable pub is_old : (retention_secs now : ℕ) → Task → Bool
is_old retention_secs now task = ltb (retention_secs * 1000 % 2 ^ 64) (now - task.enqueued_at)

module _ (w : World) (now : ℕ) where
  unfoldable pub pending_filter :
      (retention_secs : ℕ) (value : Bytes) → CompactionCounters → Decision × CompactionCounters
  unfolding is_old
  pending_filter retention_secs value c =
      if retention_secs == 0 then count_kept c else elim (w.deserialize value) [
        | ok task ↦ if is_old retention_secs now task then count_pending c else count_kept c
        | err e ↦ count_pending c
      ]

  unfoldable pub dlq_filter :
      (dlq_retention_secs : ℕ) (value : Bytes) → CompactionCounters → Decision × CompactionCounters
  unfolding is_old
  dlq_filter dlq_retention_secs value c = elim (w.deserialize value) [
    | ok task ↦ if is_old dlq_retention_secs now task then count_dlq c else count_kept c
    | err e ↦ count_dlq c
  ]

  unfoldable pub inflight_filter :
      (stale_after_secs : ℕ) (value : Bytes) → CompactionCounters → Decision × CompactionCounters
  inflight_filter stale_after_secs value c = elim (w.deserialize value) [
    | ok task ↦ count_kept c
    | err e ↦ count_stale c
  ]
