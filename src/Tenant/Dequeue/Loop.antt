-- ===== src/Tenant/Dequeue/Loop.antt =====
-- The loop of `dequeue_batch_unlocked` against a description of what one sweep takes.
use native.Mathlib.Nat.{add-suc, suc-add}
use native.Mathlib.Numerals.{add-one}
use rocksqueue.Base.{
  QueueError, Result-cases, inl, inr, ℕ, zero, suc, ◌+◌, ◌≡◌, refl, sym, ap, [], ◌∷◌, ◌++◌, map,
  length, arith, ok, err, append-nil, append_assoc, length-append,
}
use rocksqueue.Bytes.{Bytes}
use rocksqueue.Rocks.Table.{Table, Batch, put_cf, delete_cf}
use rocksqueue.Rocks.World.{World, FaultFree}
use rocksqueue.Task.{Task, poison}
use rocksqueue.Tenant.Names.{cf_pending, cf_inflight, cf_dlq}
use rocksqueue.Tenant.Dequeue.Front.{consumed, consumed-zero, delivered, corrupt}
use rocksqueue.Tenant.Dequeue.{Sweep, deliver, dequeue_loop, sweep_corrupt, sweep_task}

module _ {w : World} (ff : FaultFree w) (tenant queue : Bytes) (clock : ℕ → ℕ) where
  -- The inflight records of the delivered tasks.
  unfoldable pub to_inflight : ℕ → Table → Table
  to_inflight deadline [] = []
  to_inflight deadline ((k, v) ∷ t) = elim (w.deserialize v) [
    | ok task ↦ (k, ff.encode (deliver deadline task)) ∷ to_inflight deadline t
    | err e ↦ to_inflight deadline t
  ]

  -- The envelopes of the corrupt records, of which `i` were met before.
  unfoldable pub to_dlq : ℕ → Table → Table
  to_dlq i [] = []
  to_dlq i ((k, v) ∷ t) = elim (w.deserialize v) [
    | ok task ↦ to_dlq i t
    | err e ↦ (k, ff.encode (poison w.decimal queue v (clock (suc i)))) ∷ to_dlq (suc i) t
  ]

  unfoldable pub moves : ℕ → ℕ → Table → Batch
  moves deadline i [] = []
  moves deadline i ((k, v) ∷ t) = elim (w.deserialize v) [
    | ok task ↦
        delete_cf (cf_pending tenant) k
        ∷ put_cf (cf_inflight tenant) k (ff.encode (deliver deadline task))
        ∷ moves deadline i t
    | err e ↦
        delete_cf (cf_pending tenant) k
        ∷ put_cf (cf_dlq tenant) k (ff.encode (poison w.decimal queue v (clock (suc i))))
        ∷ moves deadline (suc i) t
  ]

  unfoldable pub swept : ℕ → Sweep → Table → Sweep
  swept deadline acc t = record {
    batch = acc.batch ++ moves deadline acc.poisoned t;
    results = acc.results ++ delivered w deadline t;
    poisoned = acc.poisoned + length (corrupt w t);
  }

  after_corrupt : (k v : Bytes) → Sweep → Sweep
  after_corrupt k v acc = record acc {
    batch =
        acc.batch
        ++ delete_cf (cf_pending tenant) k
          ∷ put_cf (cf_dlq tenant) k
              (ff.encode (poison w.decimal queue v (clock (suc acc.poisoned))))
          ∷ [];
    poisoned = acc.poisoned + 1;
  }

  after_task : ℕ → Bytes → Task → Sweep → Sweep
  after_task deadline k task acc = record acc {
    batch =
        acc.batch
        ++ delete_cf (cf_pending tenant) k
          ∷ put_cf (cf_inflight tenant) k (ff.encode (deliver deadline task))
          ∷ [];
    results = acc.results ++ (k, deliver deadline task) ∷ [];
  }

  sweep_corrupt_lem :
      (k v : Bytes) (acc : Sweep)
      → sweep_corrupt w tenant queue clock k v acc ≡ ok (after_corrupt k v acc)
  unfolding sweep_corrupt after_corrupt
  sweep_corrupt_lem k v acc = rw ff.serialize_lem

  sweep_task_lem :
      (deadline : ℕ) (k : Bytes) (task : Task) (acc : Sweep)
      → sweep_task w tenant queue clock deadline k task acc ≡ ok (after_task deadline k task acc)
  unfolding sweep_task after_task
  sweep_task_lem deadline k task acc = rw ff.serialize_lem

  module _ (deadline : ℕ) (k v : Bytes) (t : Table) (acc : Sweep) where
    swept_task :
        (task : Task)
        → w.deserialize v ≡ ok task
        → swept deadline acc ((k, v) ∷ t) ≡ swept deadline (after_task deadline k task acc) t
    unfolding swept after_task moves delivered corrupt
    swept_task task e = rw (e, moves, delivered, corrupt) (simp append_assoc)

    swept_corrupt :
        (q : QueueError)
        → w.deserialize v ≡ err q
        → swept deadline acc ((k, v) ∷ t) ≡ swept deadline (after_corrupt k v acc) t
    unfolding swept after_corrupt moves delivered corrupt
    swept_corrupt q e =
        rw (e, moves, delivered, corrupt) (simp (append_assoc, add-one, add-suc, suc-add))

  consumed_task :
      (n : ℕ) (k v : Bytes) (t : Table) (task : Task)
      → w.deserialize v ≡ ok task
      → consumed w (suc n) ((k, v) ∷ t) ≡ (k, v) ∷ consumed w n t
  unfolding consumed
  consumed_task n k v t task e = rw (e, consumed)

  consumed_corrupt :
      (n : ℕ) (k v : Bytes) (t : Table) (q : QueueError)
      → w.deserialize v ≡ err q
      → consumed w (suc n) ((k, v) ∷ t) ≡ (k, v) ∷ consumed w (suc n) t
  unfolding consumed
  consumed_corrupt n k v t q e = rw (e, consumed)

  swept_nil : (deadline : ℕ) (acc : Sweep) → swept deadline acc [] ≡ acc
  unfolding swept moves delivered corrupt
  swept_nil deadline acc = ground (arith, append-nil acc.batch, append-nil acc.results)

  length-after_task :
      (deadline : ℕ) (k : Bytes) (task : Task) (acc : Sweep)
      → length (after_task deadline k task acc).results ≡ length acc.results + 1
  unfolding after_task
  length-after_task deadline k task acc = length-append acc.results _

  length-after_corrupt : (k v : Bytes) (acc : Sweep) → (after_corrupt k v acc).results ≡ acc.results
  unfolding after_corrupt
  length-after_corrupt k v acc = refl

  pub dequeue_loop_lem :
      (limit deadline n : ℕ) (t : Table) (acc : Sweep)
      → length acc.results + suc n ≡ limit
      → dequeue_loop w tenant queue clock limit deadline (map ok t) acc
        ≡ ok (swept deadline acc (consumed w (suc n) t))
  unfolding dequeue_loop
  dequeue_loop_lem limit deadline n [] acc h =
      unfold consumed in ap ok (sym (swept_nil deadline acc))
  dequeue_loop_lem limit deadline zero ((k, v) ∷ t) acc h = elim (Result-cases (w.deserialize v)) [
    | inl (task, e) ↦
        rw
          (
            e,
            sweep_task_lem deadline k task acc,
            consumed_task zero k v t task e,
            swept_task deadline k v (consumed w zero t) acc task e,
            consumed-zero w t,
            swept_nil,
          )
          (ground (arith, length-after_task deadline k task acc))
    | inr (q, e) ↦
        rw
          (
            e,
            sweep_corrupt_lem k v acc,
            consumed_corrupt zero k v t q e,
            swept_corrupt deadline k v _ acc q e,
          )
          (dequeue_loop_lem limit deadline zero t (after_corrupt k v acc)
            (unfold after_corrupt in h))
  ]
  dequeue_loop_lem limit deadline (suc n) ((k, v) ∷ t) acc h =
      elim (Result-cases (w.deserialize v)) [
        | inl (task, e) ↦
            rw
              (
                e,
                sweep_task_lem deadline k task acc,
                consumed_task (suc n) k v t task e,
                swept_task deadline k v _ acc task e,
              )
              (ground (
                arith,
                length-after_task deadline k task acc,
                dequeue_loop_lem limit deadline n t (after_task deadline k task acc),
              ))
        | inr (q, e) ↦
            rw
              (
                e,
                sweep_corrupt_lem k v acc,
                consumed_corrupt (suc n) k v t q e,
                swept_corrupt deadline k v _ acc q e,
              )
              (dequeue_loop_lem limit deadline (suc n) t (after_corrupt k v acc)
                (unfold after_corrupt in h))
      ]
