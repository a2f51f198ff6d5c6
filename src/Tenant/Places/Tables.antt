-- ===== src/Tenant/Places/Tables.antt =====
-- Which keys have records in a table that was changed.
use rocksqueue.Base.{
  ℕ, zero, suc, ◌≡◌, refl, ◌∙◌, true, false, not, ◌&&◌, ◌||◌, List, [], ◌∷◌, take, arith,
}
use rocksqueue.Bytes.{Bytes, beq}
use rocksqueue.Bytes.Order.{beq_iff, eq_of_compare, beq-compare}
use rocksqueue.Rocks.Table.{
  Table, lookup, put, delete, delete_all, put_all, prefixed, keys, Above, IsSorted,
}
use rocksqueue.Tenant.Settle.{elem}
use rocksqueue.Tenant.Settle.Single.{is_found}
use rocksqueue.Tenant.Places.{present}

pub found-lookup : (j : Bytes) (t : Table) → is_found (lookup j t) ≡ present j t
unfolding lookup present
found-lookup j [] = refl
found-lookup j ((k, v) ∷ t) = ground (arith, found-lookup j t)

pub present-delete :
    (k j : Bytes) (t : Table) → present j (delete k t) ≡ (not (beq k j) && present j t)
unfolding present delete
present-delete k j [] = ground arith
present-delete k j ((i, v) ∷ t) =
    ground (arith, present-delete k j t, beq_iff i k, beq_iff i j, beq_iff k j)

pub present-put : (k j v : Bytes) (t : Table) → present j (put k v t) ≡ (beq k j || present j t)
unfolding present put
present-put k j v [] = refl
present-put k j v ((i, x) ∷ t) =
    ground (arith, present-put k j v t, eq_of_compare k i, beq_iff i j, beq_iff k j)

pub present-delete_all :
    (j : Bytes) (ks : List Bytes) (t : Table)
    → present j (delete_all ks t) ≡ (not (elem j ks) && present j t)
unfolding delete_all elem
present-delete_all j [] t = ground arith
present-delete_all j (k ∷ ks) t =
    present-delete_all j ks (delete k t) ∙ ground (arith, present-delete k j t)

pub present-put_all :
    (j : Bytes) (es t : Table) → present j (put_all es t) ≡ (present j es || present j t)
unfolding put_all present
present-put_all j [] t = refl
present-put_all j ((k, v) ∷ es) t =
    present-put_all j es (put k v t) ∙ ground (arith, present-put k j v t)

pub elem-keys : (j : Bytes) (t : Table) → elem j (keys t) ≡ present j t
unfolding elem present
elem-keys j [] = refl
elem-keys j ((k, v) ∷ t) = ground (arith, elem-keys j t)

-- A part of a table has no other keys.
pub present-prefixed :
    (p j : Bytes) (t : Table) → present j (prefixed p t) ≡ true → present j t ≡ true
unfolding present prefixed
present-prefixed p j [] h = h
present-prefixed p j ((k, v) ∷ t) h = ground (arith, present-prefixed p j t)

pub present-take :
    (n : ℕ) (j : Bytes) (t : Table) → present j (take n t) ≡ true → present j t ≡ true
unfolding present
present-take zero j t h = ground arith
present-take (suc n) j [] h = h
present-take (suc n) j ((k, v) ∷ t) h = ground (arith, present-take n j t)

Above-take : (k : Bytes) (n : ℕ) (t : Table) → Above k t → Above k (take n t)
Above-take k zero t a = tt
Above-take k (suc n) [] a = tt
Above-take k (suc n) ((j, v) ∷ t) a = (a.0, Above-take k n t a.1)

pub take-IsSorted : (n : ℕ) (t : Table) → IsSorted t → IsSorted (take n t)
take-IsSorted zero t s = tt
take-IsSorted (suc n) [] s = tt
take-IsSorted (suc n) ((j, v) ∷ t) s = (Above-take j n t s.0, take-IsSorted n t s.1)

-- The keys above `k` do not hold `k`.
pub present-Above : (k j : Bytes) (t : Table) → beq k j ≡ true → Above k t → present j t ≡ false
unfolding present
present-Above k j [] e a = refl
present-Above k j ((i, v) ∷ t) e a =
    ground (arith, present-Above k j t e a.1, beq-compare k i, beq_iff k j, beq_iff i j)
