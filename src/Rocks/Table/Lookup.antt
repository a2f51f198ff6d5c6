-- ===== src/Rocks/Table/Lookup.antt =====
-- Lookups after writes, and what keeps a table sorted.
use rocksqueue.Base.{
  ◌≡◌, refl, sym, ◌≢◌, none, some, [], ◌∷◌, ◌++◌, Ordering, arith, if◌then◌else◌, ◌+◌, length,
}
use rocksqueue.Bytes.{Bytes, compare_bytes, beq}
use rocksqueue.Bytes.Order.{beq_iff, compare-flip, eq_of_compare, compare_trans, beq-compare}
use rocksqueue.Rocks.Table.{
  Table, lookup, put, delete, Above, IsSorted, Batch, put_cf, delete_cf, apply,
}

pub lookup-put :
    (k j v : Bytes) (t : Table) → lookup j (put k v t) ≡ (if beq k j then some v else lookup j t)
unfolding lookup put
lookup-put k j v [] = refl
lookup-put k j v ((i, w) ∷ t) =
    ground (arith, lookup-put k j v t, beq-compare k i, beq_iff k i, beq_iff i j, beq_iff k j)

pub lookup-delete :
    (k j : Bytes) (t : Table) → lookup j (delete k t) ≡ (if beq k j then none else lookup j t)
unfolding lookup delete
lookup-delete k j [] = ground arith
lookup-delete k j ((i, w) ∷ t) =
    ground (arith, lookup-delete k j t, beq_iff i k, beq_iff i j, beq_iff k j)

pub Above-trans :
    (a b : Bytes) (t : Table) → compare_bytes a b ≡ Ordering.lt → Above b t → Above a t
Above-trans a b [] h u = tt
Above-trans a b ((j, w) ∷ t) h u = (compare_trans a b j h u.0, Above-trans a b t h u.1)

Above-put :
    (a k v : Bytes) (t : Table) → compare_bytes a k ≡ Ordering.lt → Above a t → Above a (put k v t)
unfolding put
Above-put a k v [] h u = (h, tt)
Above-put a k v ((j, w) ∷ t) h u = ground (arith, Above-put a k v t h u.1)

Above-delete : (a k : Bytes) (t : Table) → Above a t → Above a (delete k t)
unfolding delete
Above-delete a k [] u = tt
Above-delete a k ((j, w) ∷ t) u = ground (arith, Above-delete a k t u.1)

pub put-IsSorted : (k v : Bytes) (t : Table) → IsSorted t → IsSorted (put k v t)
unfolding put
put-IsSorted k v [] s = (tt, tt)
put-IsSorted k v ((j, w) ∷ t) s = ground (
  arith,
  put-IsSorted k v t s.1,
  Above-put j k v t,
  compare-flip k j,
  Above-trans k j t,
  eq_of_compare k j,
)

pub delete-IsSorted : (k : Bytes) (t : Table) → IsSorted t → IsSorted (delete k t)
unfolding delete
delete-IsSorted k [] s = tt
delete-IsSorted k ((j, w) ∷ t) s = ground (arith, delete-IsSorted k t s.1, Above-delete j k t s.0)

pub apply-IsSorted : (cf : Bytes) (b : Batch) (t : Table) → IsSorted t → IsSorted (apply cf b t)
unfolding apply
apply-IsSorted cf [] t s = s
apply-IsSorted cf (put_cf c k v ∷ b) t s =
    apply-IsSorted cf b _ (ground (arith, put-IsSorted k v t s))
apply-IsSorted cf (delete_cf c k ∷ b) t s =
    apply-IsSorted cf b _ (ground (arith, delete-IsSorted k t s))

pub apply-append :
    (cf : Bytes) (a b : Batch) (t : Table) → apply cf (a ++ b) t ≡ apply cf b (apply cf a t)
unfolding apply
apply-append cf [] b t = refl
apply-append cf (put_cf c k v ∷ a) b t = apply-append cf a b _
apply-append cf (delete_cf c k ∷ a) b t = apply-append cf a b _

-- A key that is absent adds one entry, and one that is present replaces it.
pub length-put : (k v : Bytes) (t : Table) → lookup k t ≡ none → length (put k v t) ≡ length t + 1
unfolding lookup put
length-put k v [] h = refl
length-put k v ((j, w) ∷ t) h = ground (arith, length-put k v t, eq_of_compare k j, beq_iff j k)

pub lookup-Above : (k : Bytes) (t : Table) → Above k t → lookup k t ≡ none
unfolding lookup
lookup-Above k [] u = refl
lookup-Above k ((j, w) ∷ t) u =
    ground (arith, lookup-Above k t u.1, beq-compare j k, compare-flip k j)

pub delete_absent : (k : Bytes) (t : Table) → lookup k t ≡ none → delete k t ≡ t
unfolding lookup delete
delete_absent k [] h = refl
delete_absent k ((j, w) ∷ t) h = ground (arith, delete_absent k t)

pub length-delete :
    (k v : Bytes) (t : Table)
    → IsSorted t
    → lookup k t ≡ some v
    → length (delete k t) + 1 ≡ length t
unfolding lookup delete
length-delete k v [] s h = cc
length-delete k v ((j, w) ∷ t) s h =
    ground (arith, length-delete k v t s.1, beq_iff j k, lookup-Above j t s.0, delete_absent j t)

lookup_first : (k v : Bytes) (t : Table) → lookup k ((k, v) ∷ t) ≡ some v
unfolding lookup
lookup_first k v t = ground (arith, beq_iff k k)

first_least :
    (j v i w : Bytes) (t u : Table)
    → IsSorted ((i, w) ∷ u)
    → ((k : Bytes) → lookup k ((j, v) ∷ t) ≡ lookup k ((i, w) ∷ u))
    → compare_bytes j i ≢ Ordering.lt
first_least j v i w t u s h lt =
    let missing : lookup j ((i, w) ∷ u) ≡ none =
      lookup-Above j ((i, w) ∷ u) (lt, Above-trans j i u lt s.0) in
    cc (lookup_first j v t, h j, missing)

-- Sorted tables with the same lookups are equal.
pub table_ext :
    (t u : Table) → IsSorted t → IsSorted u → ((k : Bytes) → lookup k t ≡ lookup k u) → t ≡ u
table_ext [] [] s r h = refl
table_ext [] ((i, w) ∷ u) s r h = unfold lookup in cc (lookup_first i w u, h i)
table_ext ((j, v) ∷ t) [] s r h = unfold lookup in cc (lookup_first j v t, h j)
table_ext ((j, v) ∷ t) ((i, w) ∷ u) s r h =
    let a = first_least j v i w t u r h in
    let b = first_least i w j v u t s (λ k. sym (h k)) in
    let e : j ≡ i = ground (arith, a, b, compare-flip j i, eq_of_compare j i) in
    let tails = table_ext t u s.1 r.1 (λ k.
      unfold lookup in
      ground (arith, h k, beq_iff j k, beq_iff i k, lookup-Above j t s.0, lookup-Above i u r.0)) in
    let f : v ≡ w = ground (arith, lookup_first j v t, lookup_first i w u, h j) in
    ground (arith, tails)
