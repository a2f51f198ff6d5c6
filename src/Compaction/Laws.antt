-- ===== src/Compaction/Laws.antt =====
-- What compaction may remove.
use rocksqueue.Base.{
  ℕ, ◌+◌, ◌*◌, ◌%◌, ◌^◌, ◌≤◌, ◌≡◌, refl, ◌⊎◌, inl, inr, ◌↔◌, ok, arith, Result-cases, Bool-cases,
  ◌==◌,
}
use rocksqueue.Bytes.{Bytes}
use rocksqueue.Rocks.World.{World}
use rocksqueue.Task.{Task}
use rocksqueue.Compaction.{
  CompactionCounters, keep, pending_filter, dlq_filter, inflight_filter, is_old,
}

module _ (w : World) (now : ℕ) (value : Bytes) (c : CompactionCounters) where
  -- The value parses.
  abbrev pub Parses : Type 0
  Parses = (task : Task) × (w.deserialize value ≡ ok task)

  -- The value parses, and its task is at most `retention_secs` seconds old, counted in
  -- milliseconds as a u64; a task from the future has age 0.
  abbrev pub IsYoung : ℕ → Type 0
  IsYoung retention_secs =
      (task : Task) × (w.deserialize value ≡ ok task)
      × (now ≤ task.enqueued_at + retention_secs * 1000 % 2 ^ 64)

  young_le :
      (r : ℕ) (task : Task)
      → (other : Task) × (ok task ≡ ok other) × (now ≤ other.enqueued_at + r * 1000 % 2 ^ 64)
      → now ≤ task.enqueued_at + r * 1000 % 2 ^ 64
  young_le r task (other, h, le) = let same : other ≡ task = cc (h) in rw (← same) le

  pending_keep : (r : ℕ) → ((pending_filter w now r value c).0 ≡ keep) ↔ ((r ≡ 0) ⊎ IsYoung r)
  unfolding pending_filter is_old
  pending_keep r = elim (Result-cases (w.deserialize value)) [
    | inr (q, e) ↦
        rw (pending_filter, e)
          (λ k. inl (ground arith), λ y. elim y [ inl z ↦ ground arith | inr y ↦ cc (y.1) ])
    | inl (task, e) ↦
        rw (pending_filter, e)
          (
            λ k. elim (Bool-cases (r == 0)) [
              | inl z ↦ inl (ground arith)
              | inr z ↦ inr (task, refl, ground arith)
            ],
            λ y. elim y [ inl z ↦ ground arith | inr y ↦ ground (arith, young_le r task y) ],
          )
  ]

  dlq_keep : (r : ℕ) → ((dlq_filter w now r value c).0 ≡ keep) ↔ IsYoung r
  unfolding dlq_filter is_old
  dlq_keep r = elim (Result-cases (w.deserialize value)) [
    | inr (q, e) ↦ rw (dlq_filter, e) (λ k. ground arith, λ y. cc (y.1))
    | inl (task, e) ↦
        rw (dlq_filter, e) (λ k. (task, refl, ground arith), λ y. ground (arith, young_le r task y))
  ]

  inflight_keep : (r : ℕ) → ((inflight_filter w now r value c).0 ≡ keep) ↔ Parses
  unfolding inflight_filter
  inflight_keep r = elim (Result-cases (w.deserialize value)) [
    | inr (q, e) ↦ rw (inflight_filter, e) (λ k. ground arith, λ y. cc (y.1))
    | inl (task, e) ↦ rw (inflight_filter, e) (λ k. (task, refl), λ y. refl)
  ]

  -- Compaction keeps a pending record exactly if the retention is 0 or the record parses and is
  -- within the retention, a dead letter exactly if it parses and is within the retention, and an
  -- inflight record exactly if it parses, however old.
  pub filters-keep :
      (retention_secs dlq_retention_secs stale_after_secs : ℕ)
      → (((pending_filter w now retention_secs value c).0 ≡ keep)
          ↔ ((retention_secs ≡ 0) ⊎ IsYoung retention_secs))
        × (((dlq_filter w now dlq_retention_secs value c).0 ≡ keep) ↔ IsYoung dlq_retention_secs)
        × (((inflight_filter w now stale_after_secs value c).0 ≡ keep) ↔ Parses)
  filters-keep r d a = (pending_keep r, dlq_keep d, inflight_keep a)
