-- ===== src/Rocks/World.antt =====
-- The operations of RocksDB, bincode and `String::from_utf8_lossy` that the program calls, and
-- their documented behaviour while no call fails.
use rocksqueue.Base.{ℕ, ◌≡◌, Bool, true, false, Option, List, [], ◌∷◌, ◌++◌, map, Result, ok, Exec}
use rocksqueue.Bytes.{Bytes, starts_with}
use rocksqueue.Rocks.Table.{
  Entry, Table, lookup, prefixed, IsSorted, Batch, put_cf, delete_cf, apply,
}
use rocksqueue.Task.Types.{Task}
use rocksqueue.Policy.{NamespacePolicy}

pub record World : Type 1 where
  -- an open database
  pub Db : Type 0
  -- `cf_handle(name).is_some()`
  pub has_cf : Db → Bytes → Bool
  pub create_cf : Bytes → Exec Db (Unit {0})
  pub drop_cf : Bytes → Exec Db (Unit {0})
  pub get_cf : Db → (cf key : Bytes) → Result (Option Bytes)
  -- `iterator_cf_opt` over `PrefixRange(prefix)`
  pub scan_prefix : Db → (cf prefix : Bytes) → List (Result Entry)
  -- `iterator_cf` from `prefix` on, with no upper bound
  pub scan_from : Db → (cf prefix : Bytes) → List (Result Entry)
  -- `iterator_cf` from the start
  pub scan_all : Db → (cf : Bytes) → List (Result Entry)
  pub write : Batch → Exec Db (Unit {0})
  -- bincode
  pub serialize : Task → Result Bytes
  pub deserialize : Bytes → Result Task
  pub serialize_policy : NamespacePolicy → Result Bytes
  pub deserialize_policy : Bytes → Result NamespacePolicy
  -- the decimal text of a number, as `format!` writes it
  pub decimal : ℕ → Bytes
  -- `String::from_utf8_lossy(bytes).into_owned()`
  pub from_utf8_lossy : Bytes → Bytes

-- Every column family that a batch names exists.
abbrev pub Known : (Bytes → Bool) → Batch → Type 0
Known has [] = Unit
Known has (put_cf c k v ∷ b) = (has c ≡ true) × Known has b
Known has (delete_cf c k ∷ b) = (has c ≡ true) × Known has b

-- What may follow the entries of a prefix in an iteration that has no upper bound.
abbrev pub EndsPrefix : Bytes → Table → Type 0
EndsPrefix p [] = Unit
EndsPrefix p ((k, v) ∷ t) = starts_with p k ≡ false

-- The documented behaviour of a database on which no call fails: `table db cf` is the sorted
-- content of a column family, and reads and batches are about these contents.
pub record FaultFree (w : World) : Type 0 where
  pub table : w.Db → Bytes → Table
  pub table_sorted : (db : w.Db) (cf : Bytes) → IsSorted (table db cf)
  pub get_cf_lem :
      (db : w.Db) (cf k : Bytes)
      → w.has_cf db cf ≡ true
      → w.get_cf db cf k ≡ ok (lookup k (table db cf))
  pub scan_prefix_lem :
      (db : w.Db) (cf p : Bytes)
      → w.has_cf db cf ≡ true
      → w.scan_prefix db cf p ≡ map ok (prefixed p (table db cf))
  pub scan_from_lem :
      (db : w.Db) (cf p : Bytes)
      → w.has_cf db cf ≡ true
      → (rest : Table) × (w.scan_from db cf p ≡ map ok (prefixed p (table db cf) ++ rest))
        × EndsPrefix p rest
  pub scan_all_lem :
      (db : w.Db) (cf : Bytes) → w.has_cf db cf ≡ true → w.scan_all db cf ≡ map ok (table db cf)
  pub write_ok : (db : w.Db) (b : Batch) → Known (w.has_cf db) b → (w.write b db).0 ≡ ok tt
  pub has_cf-write :
      (db : w.Db) (b : Batch) (cf : Bytes) → w.has_cf (w.write b db).1 cf ≡ w.has_cf db cf
  pub table-write :
      (db : w.Db) (b : Batch) (cf : Bytes)
      → Known (w.has_cf db) b
      → table (w.write b db).1 cf ≡ apply cf b (table db cf)
  -- bincode writes every task, and reads back what it has written.
  pub encode : Task → Bytes
  pub serialize_lem : (t : Task) → w.serialize t ≡ ok (encode t)
  pub deserialize-encode : (t : Task) → w.deserialize (encode t) ≡ ok t
