-- ===== src/Rocks/Table.antt =====
-- The documented view of a column family: its entries, by increasing key.
pub mod Lookup
pub mod Prefix
use rocksqueue.Base.{
  ◌≡◌, Bool, true, false, Option, none, some, List, [], ◌∷◌, map, Ordering, if◌then◌else◌,
}
use rocksqueue.Bytes.{Bytes, compare_bytes, beq, starts_with}

abbrev pub Entry : Type 0
Entry = Bytes × Bytes

abbrev pub Table : Type 0
Table = List Entry

abbrev pub keys : Table → List Bytes
keys t = map (λ e. e.0) t

unfoldable pub lookup : Bytes → Table → Option Bytes
lookup k [] = none
lookup k ((j, v) ∷ t) = if beq j k then some v else lookup k t

unfoldable pub put : Bytes → Bytes → Table → Table
put k v [] = (k, v) ∷ []
put k v ((j, w) ∷ t) = elim (compare_bytes k j) [
  | Ordering.lt ↦ (k, v) ∷ (j, w) ∷ t
  | Ordering.eq ↦ (k, v) ∷ t
  | Ordering.gt ↦ (j, w) ∷ put k v t
]

unfoldable pub delete : Bytes → Table → Table
delete k [] = []
delete k ((j, w) ∷ t) = let rest = delete k t in if beq j k then rest else (j, w) ∷ rest

-- The entries whose key begins with `p`.
unfoldable pub prefixed : Bytes → Table → Table
prefixed p [] = []
prefixed p ((j, w) ∷ t) = let rest = prefixed p t in if starts_with p j then (j, w) ∷ rest else rest

unfoldable pub delete_all : List Bytes → Table → Table
delete_all [] t = t
delete_all (k ∷ ks) t = delete_all ks (delete k t)

unfoldable pub put_all : Table → Table → Table
put_all [] t = t
put_all ((k, v) ∷ es) t = put_all es (put k v t)

-- Every key of the table is above `k`.
abbrev pub Above : Bytes → Table → Type 0
Above k [] = Unit
Above k ((j, w) ∷ t) = (compare_bytes k j ≡ Ordering.lt) × Above k t

-- Every key of the table is below `k`.
abbrev pub Below : Bytes → Table → Type 0
Below k [] = Unit
Below k ((j, w) ∷ t) = (compare_bytes j k ≡ Ordering.lt) × Below k t

-- Keys increase along the table.
abbrev pub IsSorted : Table → Type 0
IsSorted [] = Unit
IsSorted ((j, w) ∷ t) = Above j t × IsSorted t

-- A write batch is a sequence of puts and deletes, applied in order.
pub data BatchOp : Type 0 where
  put_cf : (cf key value : Bytes) → BatchOp
  delete_cf : (cf key : Bytes) → BatchOp

abbrev pub Batch : Type 0
Batch = List BatchOp

-- What a batch does to the column family `cf`.
unfoldable pub apply : Bytes → Batch → Table → Table
apply cf [] t = t
apply cf (put_cf c k v ∷ b) t = apply cf b (if beq c cf then put k v t else t)
apply cf (delete_cf c k ∷ b) t = apply cf b (if beq c cf then delete k t else t)
