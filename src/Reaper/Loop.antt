-- ===== src/Reaper/Loop.antt =====
-- The loop of `reap_inflight` against a description of what one pass moves.
use rocksqueue.Base.{
  QueueError, Result-cases, inl, inr, ℕ, suc, ◌+◌, ◌≡◌, refl, sym, ap, ◌∙◌, true, false, List, [],
  ◌∷◌, ◌++◌, map, length, arith, ok, err, if◌then◌else◌, append-nil, append_assoc, Bool-cases, All,
}
use native.Mathlib.Nat.{add-suc, suc-add}
use native.Mathlib.Numerals.{add-one}
use rocksqueue.Bytes.{Bytes, starts_with}
use rocksqueue.Rocks.Table.{Table, Batch, put_cf, delete_cf}
use rocksqueue.Rocks.World.{World, FaultFree, EndsPrefix}
use rocksqueue.Task.{Task, poison}
use rocksqueue.Task.Keys.{queue_prefix}
use rocksqueue.Tenant.Names.{cf_pending, cf_inflight, cf_dlq}
use rocksqueue.Reaper.{Reaped, is_expired, reap_corrupt, reap_task, reap_loop}

module _ (w : World) (now : ℕ) where
  -- The keys of the entries that a pass moves: expired tasks, and records that do not parse.
  unfoldable pub taken : Table → List Bytes
  taken [] = []
  taken ((k, v) ∷ t) = elim (w.deserialize v) [
    | ok task ↦ let rest = taken t in if is_expired now task then k ∷ rest else rest
    | err e ↦ k ∷ taken t
  ]

  -- The entries that it leaves.
  unfoldable pub left : Table → Table
  left [] = []
  left ((k, v) ∷ t) = elim (w.deserialize v) [
    | ok task ↦ let rest = left t in if is_expired now task then rest else (k, v) ∷ rest
    | err e ↦ left t
  ]

module _ {w : World} (ff : FaultFree w) (tenant queue : Bytes) (clock : ℕ → ℕ) where
  -- The expired tasks as they are pending again.
  unfoldable pub reclaimed_entries : Table → Table
  reclaimed_entries [] = []
  reclaimed_entries ((k, v) ∷ t) = elim (w.deserialize v) [
    | ok task ↦
        let rest = reclaimed_entries t in
        if is_expired (clock 0) task
        then (k, ff.encode (record task { deadline = 0 })) ∷ rest
        else rest
    | err e ↦ reclaimed_entries t
  ]

  -- The envelopes of the records that do not parse, of which `i` were met before.
  unfoldable pub poisoned_entries : ℕ → Table → Table
  poisoned_entries i [] = []
  poisoned_entries i ((k, v) ∷ t) = elim (w.deserialize v) [
    | ok task ↦ poisoned_entries i t
    | err e ↦ (k, ff.encode (poison w.decimal queue v (clock (suc i)))) ∷ poisoned_entries (suc i) t
  ]

  unfoldable pub reap_moves : ℕ → Table → Batch
  reap_moves i [] = []
  reap_moves i ((k, v) ∷ t) = elim (w.deserialize v) [
    | ok task ↦
        let rest = reap_moves i t in
        if is_expired (clock 0) task
        then delete_cf (cf_inflight tenant) k
          ∷ put_cf (cf_pending tenant) k (ff.encode (record task { deadline = 0 }))
          ∷ rest
        else rest
    | err e ↦
        delete_cf (cf_inflight tenant) k
        ∷ put_cf (cf_dlq tenant) k (ff.encode (poison w.decimal queue v (clock (suc i))))
        ∷ reap_moves (suc i) t
  ]

  unfoldable pub reaped : Reaped → Table → Reaped
  reaped acc t = record {
    batch = acc.batch ++ reap_moves acc.poisoned t;
    reclaimed = acc.reclaimed + length (reclaimed_entries t);
    poisoned = acc.poisoned + length (poisoned_entries acc.poisoned t);
  }

  reaped_nil : (acc : Reaped) → reaped acc [] ≡ acc
  unfolding reaped reap_moves reclaimed_entries poisoned_entries
  reaped_nil acc = ground (arith, append-nil acc.batch)

  module _ (k v : Bytes) (t : Table) (acc : Reaped) where
    abbrev after_corrupt : Reaped
    after_corrupt = record acc {
      batch =
          acc.batch
          ++ delete_cf (cf_inflight tenant) k
            ∷ put_cf (cf_dlq tenant) k
                (ff.encode (poison w.decimal queue v (clock (suc acc.poisoned))))
            ∷ [];
      poisoned = acc.poisoned + 1;
    }

    abbrev after_expired : Task → Reaped
    after_expired task = record acc {
      batch =
          acc.batch
          ++ delete_cf (cf_inflight tenant) k
            ∷ put_cf (cf_pending tenant) k (ff.encode (record task { deadline = 0 }))
            ∷ [];
      reclaimed = acc.reclaimed + 1;
    }

    reap_corrupt_lem : reap_corrupt w tenant queue clock k v acc ≡ ok after_corrupt
    unfolding reap_corrupt
    reap_corrupt_lem = rw ff.serialize_lem

    reap_expired_lem :
        (task : Task)
        → is_expired (clock 0) task ≡ true
        → reap_task w tenant queue clock k task acc ≡ ok (after_expired task)
    unfolding reap_task
    reap_expired_lem task h = rw (h, ff.serialize_lem)

    reap_waiting_lem :
        (task : Task)
        → is_expired (clock 0) task ≡ false
        → reap_task w tenant queue clock k task acc ≡ ok acc
    unfolding reap_task
    reap_waiting_lem task h = rw h

    reaped_corrupt :
        (e : QueueError)
        → w.deserialize v ≡ err e
        → reaped acc ((k, v) ∷ t) ≡ reaped after_corrupt t
    unfolding reaped reap_moves reclaimed_entries poisoned_entries
    reaped_corrupt e h =
        rw (h, reap_moves, reclaimed_entries, poisoned_entries)
          (simp (append_assoc, add-one, add-suc, suc-add))

    reaped_expired :
        (task : Task)
        → w.deserialize v ≡ ok task
        → is_expired (clock 0) task ≡ true
        → reaped acc ((k, v) ∷ t) ≡ reaped (after_expired task) t
    unfolding reaped reap_moves reclaimed_entries poisoned_entries
    reaped_expired task h x =
        rw (h, reap_moves, reclaimed_entries, poisoned_entries)
          (rw x (simp (append_assoc, add-one, add-suc, suc-add)))

    reaped_waiting :
        (task : Task)
        → w.deserialize v ≡ ok task
        → is_expired (clock 0) task ≡ false
        → reaped acc ((k, v) ∷ t) ≡ reaped acc t
    unfolding reaped reap_moves reclaimed_entries poisoned_entries
    reaped_waiting task h x = rw (h, reap_moves, reclaimed_entries, poisoned_entries) (rw x refl)

  -- An iteration from the prefix on is cut where the prefix ends.
  reap_loop_rest :
      (rest : Table) (acc : Reaped)
      → EndsPrefix (queue_prefix queue) rest
      → reap_loop w tenant queue clock (map ok rest) acc ≡ ok acc
  unfolding reap_loop
  reap_loop_rest [] acc h = refl
  reap_loop_rest ((k, v) ∷ rest) acc h = rw h

  pub reap_loop_lem :
      (t rest : Table) (acc : Reaped)
      → All (λ e. starts_with (queue_prefix queue) e.0 ≡ true) t
      → EndsPrefix (queue_prefix queue) rest
      → reap_loop w tenant queue clock (map ok (t ++ rest)) acc ≡ ok (reaped acc t)
  unfolding reap_loop
  reap_loop_lem [] rest acc a h = reap_loop_rest rest acc h ∙ ap ok (sym (reaped_nil acc))
  reap_loop_lem ((k, v) ∷ t) rest acc a h = rw (a.0) (elim (Result-cases (w.deserialize v)) [
    | inr (e, d) ↦
        rw (d, reap_corrupt_lem k v t acc, reaped_corrupt k v t acc e d)
          (reap_loop_lem t rest (after_corrupt k v t acc) a.1 h)
    | inl (task, d) ↦ elim (Bool-cases (is_expired (clock 0) task)) [
      | inl x ↦
          rw (d, reap_expired_lem k v t acc task x, reaped_expired k v t acc task d x)
            (reap_loop_lem t rest (after_expired k v t acc task) a.1 h)
      | inr x ↦
          rw (d, reap_waiting_lem k v t acc task x, reaped_waiting k v t acc task d x)
            (reap_loop_lem t rest acc a.1 h)
    ]
  ])
