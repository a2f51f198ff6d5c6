-- ===== src/Rocks/Table/Prefix.antt =====
-- The part of a table under one prefix, before and after writes.
use rocksqueue.Base.{
  ℕ, zero, suc, take, drop, ◌≡◌, refl, true, false, List, [], ◌∷◌, ◌++◌, Ordering, arith, ap, ◌∙◌,
  All, Bool-cases, inl, inr,
}
use rocksqueue.Bytes.{Bytes, compare_bytes, beq, starts_with}
use rocksqueue.Bytes.Order.{beq_iff, compare-flip, eq_of_compare, compare_trans, beq-compare}
use rocksqueue.Rocks.Table.{
  Table, lookup, put, delete, prefixed, Above, Below, IsSorted, delete_all, keys,
}

Above-prefixed : (a p : Bytes) (t : Table) → Above a t → Above a (prefixed p t)
unfolding prefixed
Above-prefixed a p [] u = tt
Above-prefixed a p ((j, w) ∷ t) u = ground (arith, Above-prefixed a p t u.1)

pub prefixed-IsSorted : (p : Bytes) (t : Table) → IsSorted t → IsSorted (prefixed p t)
unfolding prefixed
prefixed-IsSorted p [] s = tt
prefixed-IsSorted p ((j, w) ∷ t) s =
    ground (arith, prefixed-IsSorted p t s.1, Above-prefixed j p t s.0)

pub prefixed-delete : (p k : Bytes) (t : Table) → prefixed p (delete k t) ≡ delete k (prefixed p t)
unfolding prefixed delete
prefixed-delete p k [] = refl
prefixed-delete p k ((j, w) ∷ t) = ground (arith, prefixed-delete p k t)

pub prefixed-put_other :
    (p k v : Bytes) (t : Table) → starts_with p k ≡ false → prefixed p (put k v t) ≡ prefixed p t
unfolding prefixed put
prefixed-put_other p k v [] h = ground arith
prefixed-put_other p k v ((j, w) ∷ t) h =
    ground (arith, prefixed-put_other p k v t h, eq_of_compare k j)

put_first : (k v : Bytes) (t : Table) → Above k t → put k v t ≡ (k, v) ∷ t
unfolding put
put_first k v [] u = refl
put_first k v ((j, w) ∷ t) u = ground arith

pub prefixed-put :
    (p k v : Bytes) (t : Table)
    → IsSorted t
    → starts_with p k ≡ true
    → prefixed p (put k v t) ≡ put k v (prefixed p t)
unfolding prefixed put
prefixed-put p k v [] s h = ground arith
prefixed-put p k v ((j, w) ∷ t) s h = ground (
  arith,
  prefixed-put p k v t s.1 h,
  eq_of_compare k j,
  above t s.0,
  put_first k v (prefixed p t),
)
  where
    above : (t : Table) → Above j t → compare_bytes k j ≡ Ordering.lt → Above k (prefixed p t)
    above t u e = go t u
      where
        go : (t : Table) → Above j t → Above k (prefixed p t)
        go [] u = tt
        go ((i, w) ∷ t) u = ground (arith, go t u.1, compare_trans k j i e u.0)

-- A put above every key of the table goes to its end.
pub put_last : (k v : Bytes) (t : Table) → Below k t → put k v t ≡ t ++ (k, v) ∷ []
unfolding put
put_last k v [] b = refl
put_last k v ((j, w) ∷ t) b = ground (arith, compare-flip j k, put_last k v t b.1)

pub lookup-prefixed :
    (p k : Bytes) (t : Table) → starts_with p k ≡ true → lookup k (prefixed p t) ≡ lookup k t
unfolding lookup prefixed
lookup-prefixed p k [] h = refl
lookup-prefixed p k ((j, w) ∷ t) h = ground (arith, lookup-prefixed p k t h, beq_iff j k)

-- Deleting the first key of a sorted table leaves the rest.
pub delete_first : (k v : Bytes) (t : Table) → IsSorted ((k, v) ∷ t) → delete k ((k, v) ∷ t) ≡ t
unfolding delete
delete_first k v t s = ground (arith, beq_iff k k, absent t s.0)
  where
    absent : (t : Table) → Above k t → delete k t ≡ t
    absent [] u = refl
    absent ((j, w) ∷ t) u = ground (arith, absent t u.1, beq_iff j k, compare-flip k j)

pub prefixed-delete_all :
    (p : Bytes) (ks : List Bytes) (t : Table)
    → prefixed p (delete_all ks t) ≡ delete_all ks (prefixed p t)
unfolding delete_all
prefixed-delete_all p [] t = refl
prefixed-delete_all p (k ∷ ks) t =
    prefixed-delete_all p ks (delete k t) ∙ ap (delete_all ks) (prefixed-delete p k t)

pub prefixed-All : (p : Bytes) (t : Table) → All (λ e. starts_with p e.0 ≡ true) (prefixed p t)
unfolding prefixed
prefixed-All p [] = tt
prefixed-All p ((j, w) ∷ t) = elim (Bool-cases (starts_with p j)) [
  | inl h ↦ rw h (h, prefixed-All p t)
  | inr h ↦ rw h (prefixed-All p t)
]

pub beq_of_lt : (a b : Bytes) → compare_bytes a b ≡ Ordering.lt → beq a b ≡ false
beq_of_lt a b h = ground (arith, beq-compare a b)

-- Deleting keys that are above `k` leaves an entry of `k` at the front.
pub delete_all_above :
    (k v : Bytes) (ks : List Bytes) (t : Table)
    → All (λ j. compare_bytes k j ≡ Ordering.lt) ks
    → delete_all ks ((k, v) ∷ t) ≡ (k, v) ∷ delete_all ks t
unfolding delete_all delete
delete_all_above k v [] t a = refl
delete_all_above k v (j ∷ ks) t a =
    rw (beq_of_lt k j a.0) (delete_all_above k v ks (delete j t) a.1)

pub delete_all-keys-take :
    (n : ℕ) (t : Table) → IsSorted t → delete_all (keys (take n t)) t ≡ drop n t
unfolding delete_all
delete_all-keys-take zero t h = refl
delete_all-keys-take (suc n) [] h = refl
delete_all-keys-take (suc n) ((k, v) ∷ t) h =
    ap (delete_all (keys (take n t))) (delete_first k v t h) ∙ delete_all-keys-take n t h.1
