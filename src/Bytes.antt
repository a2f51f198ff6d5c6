-- ===== src/Bytes.antt =====
-- Byte strings: the keys and values of the store, and the texts of the program by their UTF-8
-- bytes. `slice::cmp`, `==`, `starts_with` and `contains` of std on `[u8]`.
pub mod Order
use rocksqueue.Base.{ℕ, Bool, true, false, List, [], ◌∷◌, compare, Ordering, ◌==◌, ◌||◌, ◌&&◌}

abbrev pub Bytes : Type 0
Bytes = List ℕ

-- Lexicographic, as `Ord` on slices and RocksDB's bytewise comparator.
unfoldable pub compare_bytes : Bytes → Bytes → Ordering
compare_bytes [] [] = Ordering.eq
compare_bytes [] (y ∷ ys) = Ordering.lt
compare_bytes (x ∷ xs) [] = Ordering.gt
compare_bytes (x ∷ xs) (y ∷ ys) = elim (compare x y) [
  | Ordering.lt ↦ Ordering.lt
  | Ordering.eq ↦ compare_bytes xs ys
  | Ordering.gt ↦ Ordering.gt
]

unfoldable pub beq : Bytes → Bytes → Bool
beq [] [] = true
beq [] (y ∷ ys) = false
beq (x ∷ xs) [] = false
beq (x ∷ xs) (y ∷ ys) = (x == y) && beq xs ys

-- `key.starts_with(prefix)`, the prefix first.
unfoldable pub starts_with : Bytes → Bytes → Bool
starts_with [] k = true
starts_with (p ∷ ps) [] = false
starts_with (p ∷ ps) (k ∷ ks) = (p == k) && starts_with ps ks

unfoldable pub contains : ℕ → Bytes → Bool
contains b [] = false
contains b (x ∷ xs) = (x == b) || contains b xs
