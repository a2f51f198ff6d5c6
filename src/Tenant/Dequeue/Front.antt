-- ===== src/Tenant/Dequeue/Front.antt =====
-- What one sweep of a dequeue takes from the front of a queue.
use rocksqueue.Base.{ℕ, zero, suc, ◌+◌, ◌≤◌, ◌≡◌, refl, List, [], ◌∷◌, length, take, arith, ok, err}
use rocksqueue.Bytes.{Bytes}
use rocksqueue.Rocks.Table.{Table}
use rocksqueue.Rocks.World.{World}
use rocksqueue.Task.{Task}
use rocksqueue.Tenant.Dequeue.{deliver}

module _ (w : World) where
  -- The entries that a sweep takes which is to deliver `n` tasks: from the front, those that do
  -- not parse beside the first `n` that do.
  unfoldable pub consumed : ℕ → Table → Table
  consumed n [] = []
  consumed zero (e ∷ t) = []
  consumed (suc n) ((k, v) ∷ t) = elim (w.deserialize v) [
    | ok task ↦ (k, v) ∷ consumed n t
    | err e ↦ (k, v) ∷ consumed (suc n) t
  ]

  pub consumed-zero : (t : Table) → consumed zero t ≡ []
  unfolding consumed
  consumed-zero [] = refl
  consumed-zero (e ∷ t) = refl

  -- The tasks among the entries, as they are delivered.
  unfoldable pub delivered : ℕ → Table → List (Bytes × Task)
  delivered deadline [] = []
  delivered deadline ((k, v) ∷ t) = elim (w.deserialize v) [
    | ok task ↦ (k, deliver deadline task) ∷ delivered deadline t
    | err e ↦ delivered deadline t
  ]

  -- The entries that do not parse.
  unfoldable pub corrupt : Table → Table
  corrupt [] = []
  corrupt ((k, v) ∷ t) = elim (w.deserialize v) [ ok task ↦ corrupt t | err e ↦ (k, v) ∷ corrupt t ]

  -- A sweep takes a front part of the queue.
  pub consumed-take : (n : ℕ) (t : Table) → consumed n t ≡ take (length (consumed n t)) t
  unfolding consumed
  consumed-take n [] = refl
  consumed-take zero (e ∷ t) = refl
  consumed-take (suc n) ((k, v) ∷ t) = ground (arith, consumed-take n t, consumed-take (suc n) t)

  pub length-delivered-le : (n d : ℕ) (t : Table) → length (delivered d (consumed n t)) ≤ n
  unfolding consumed delivered
  length-delivered-le n d [] = omega arith
  length-delivered-le zero d (e ∷ t) = omega arith
  length-delivered-le (suc n) d ((k, v) ∷ t) =
      ground (arith, length-delivered-le n d t, length-delivered-le (suc n) d t)

  pub length-consumed : (d : ℕ) (t : Table) → length (delivered d t) + length (corrupt t) ≡ length t
  unfolding delivered corrupt
  length-consumed d [] = refl
  length-consumed d ((k, v) ∷ t) = ground (arith, length-consumed d t)
