-- ===== src/Store/Rows.antt =====
-- The rows of `__system__` under one prefix as a map from tenants to records.
use rocksqueue.Base.{
  ◌≡◌, refl, ap, ◌∙◌, true, false, Option, none, some, List, [], ◌∷◌, ◌++◌, map, Result, ok, err,
  if◌then◌else◌, All, arith, Result-cases, Bool-cases, inl, inr, Ordering,
}
use rocksqueue.Bytes.{Bytes, beq, starts_with, compare_bytes}
use rocksqueue.Bytes.Order.{beq_iff, beq_refl, starts_with-append}
use rocksqueue.Rocks.Table.{Table, lookup, put, delete, prefixed, apply, put_cf, delete_cf}
use rocksqueue.Rocks.Table.Lookup.{lookup-put, lookup-delete}
use rocksqueue.Rocks.Table.Prefix.{
  lookup-prefixed, prefixed-put, prefixed-put_other, prefixed-delete, prefixed-All,
}
use rocksqueue.Rocks.World.{World, FaultFree, EndsPrefix}
use rocksqueue.Tenant.Names.{cf_system}
use rocksqueue.Store.{load_rows, row_of, row_key, put_row, delete_row}

pub beq-append : (p a b : Bytes) → beq (p ++ a) (p ++ b) ≡ beq a b
unfolding beq
beq-append [] a b = refl
beq-append (x ∷ p) a b = ground (arith, beq-append p a b)

prefixed-delete_other :
    (p k : Bytes) (t : Table) → starts_with p k ≡ false → prefixed p (delete k t) ≡ prefixed p t
unfolding prefixed delete
prefixed-delete_other p k [] h = refl
prefixed-delete_other p k ((j, v) ∷ t) h =
    ground (arith, prefixed-delete_other p k t h, beq_iff j k)

-- The rows under the prefix.
abbrev pub rows : {w : World} (ff : FaultFree w) (p : Bytes) → w.Db → Table
rows ff p db = prefixed p (ff.table db cf_system)

module _ {A : Type 0} (decode : Bytes → Result A) where
  -- The records of a table's values, those that cannot be decoded left out.
  unfoldable pub decoded : Table → List A
  decoded [] = []
  decoded ((k, v) ∷ t) = let rest = decoded t in elim (decode v) [ ok a ↦ a ∷ rest | err e ↦ rest ]

  load_rows-rest :
      (p : Bytes) (rest : Table) → EndsPrefix p rest → load_rows decode p (map ok rest) ≡ []
  unfolding load_rows
  load_rows-rest p [] h = refl
  load_rows-rest p ((k, v) ∷ rest) h = rw h refl

  -- An iteration from the prefix on gives the rows of the prefix.
  pub load_rows_lem :
      (p : Bytes) (t rest : Table)
      → All (λ e. starts_with p e.0 ≡ true) t
      → EndsPrefix p rest
      → load_rows decode p (map ok (t ++ rest)) ≡ decoded t
  unfolding load_rows decoded
  load_rows_lem p [] rest a h = load_rows-rest p rest h
  load_rows_lem p ((k, v) ∷ t) rest a h = elim (Result-cases (decode v)) [
    | inl (x, e) ↦ rw (a.0, decoded, e) (ap (◌∷◌ x) (load_rows_lem p t rest a.1 h))
    | inr (q, e) ↦ rw (a.0, decoded, e) (load_rows_lem p t rest a.1 h)
  ]

  module _ (id_of : A → Bytes) (p : Bytes) where
    -- The first record of the tenant.
    unfoldable pub find : Bytes → List A → Option A
    find id [] = none
    find id (a ∷ l) = let rest = find id l in if beq (id_of a) id then some a else rest

    -- Every value is a record, under its tenant's key.
    abbrev pub IsKeyed : Table → Type 0
    IsKeyed t = All (λ e. (a : A) × (decode e.1 ≡ ok a) × (e.0 ≡ p ++ id_of a)) t

    pub find-decoded :
        (id : Bytes) (t : Table)
        → IsKeyed t
        → find id (decoded t) ≡ row_of decode (ok (lookup (p ++ id) t))
    unfolding find decoded lookup row_of
    find-decoded id [] h = refl
    find-decoded id ((k, v) ∷ t) ((a, d, e), h) =
        rw (decoded, find, lookup, d, e, beq-append p (id_of a) id)
          (elim (Bool-cases (beq (id_of a) id)) [
            | inl x ↦ rw x (rw (row_of, d) refl)
            | inr x ↦ rw x (find-decoded id t h)
          ])

    put-IsKeyed :
        (a : A) (v : Bytes) (t : Table)
        → decode v ≡ ok a
        → IsKeyed t
        → IsKeyed (put (p ++ id_of a) v t)
    unfolding put
    put-IsKeyed a v [] d h = ((a, d, refl), tt)
    put-IsKeyed a v ((k, x) ∷ t) d h =
        let new : (b : A) × (decode v ≡ ok b) × (p ++ id_of a ≡ p ++ id_of b) = (a, d, refl) in
        elim (compare_bytes (p ++ id_of a) k)
          as (λ o. IsKeyed (elim o as (λ x'. Table) [
            | Ordering.lt ↦ (p ++ id_of a, v) ∷ (k, x) ∷ t
            | Ordering.eq ↦ (p ++ id_of a, v) ∷ t
            | Ordering.gt ↦ (k, x) ∷ put (p ++ id_of a) v t
          ])) [
            | Ordering.lt ↦ (new, h)
            | Ordering.eq ↦ (new, h.1)
            | Ordering.gt ↦ (h.0, put-IsKeyed a v t d h.1)
          ]

    delete-IsKeyed : (k : Bytes) (t : Table) → IsKeyed t → IsKeyed (delete k t)
    unfolding delete
    delete-IsKeyed k [] h = tt
    delete-IsKeyed k ((j, x) ∷ t) h = elim (Bool-cases (beq j k)) [
      | inl e ↦ rw (delete, e) (delete-IsKeyed k t h.1)
      | inr e ↦ rw (delete, e) (h.0, delete-IsKeyed k t h.1)
    ]

  module _ {w : World} (ff : FaultFree w) (id_of : A → Bytes) (p : Bytes) (db : w.Db)
      (has : w.has_cf db cf_system ≡ true) where
    abbrev pub load : w.Db → List A
    load db = load_rows decode p (w.scan_from db cf_system p)

    pub load_lem : load db ≡ decoded (rows ff p db)
    load_lem =
        let s = ff.scan_from_lem db cf_system p has in
        rw s.1 (load_rows_lem p (rows ff p db) s.0 (prefixed-All p _) s.2)

    pub find-load :
        (id : Bytes)
        → IsKeyed id_of p (rows ff p db)
        → find id_of p id (load db) ≡ row_of decode (ok (lookup (p ++ id) (ff.table db cf_system)))
    find-load id h = rw load_lem (
        find-decoded id_of p id (rows ff p db) h
        ∙ ap (λ o. row_of decode (ok o)) (lookup-prefixed p (p ++ id) _ (starts_with-append p id)))

module _ {w : World} (ff : FaultFree w) (db : w.Db) (has : w.has_cf db cf_system ≡ true) where
  pub table-put_row :
      (k v : Bytes) → ff.table (put_row w k (ok v) db) cf_system ≡ put k v (ff.table db cf_system)
  unfolding put_row apply
  table-put_row k v =
      ff.table-write db (put_cf cf_system k v ∷ []) cf_system (has, tt) ∙ simp (beq_refl)

  pub table-delete_row :
      (k : Bytes) → ff.table (delete_row w k db) cf_system ≡ delete k (ff.table db cf_system)
  unfolding delete_row apply
  table-delete_row k =
      ff.table-write db (delete_cf cf_system k ∷ []) cf_system (has, tt) ∙ simp (beq_refl)

  pub has_cf-put_row : (k v cf : Bytes) → w.has_cf (put_row w k (ok v) db) cf ≡ w.has_cf db cf
  unfolding put_row
  has_cf-put_row k v cf = ff.has_cf-write db _ cf

  pub has_cf-delete_row : (k cf : Bytes) → w.has_cf (delete_row w k db) cf ≡ w.has_cf db cf
  unfolding delete_row
  has_cf-delete_row k cf = ff.has_cf-write db _ cf

  -- Rows under another prefix are as they were.
  pub rows-put_row :
      (p k v : Bytes) → starts_with p k ≡ false → rows ff p (put_row w k (ok v) db) ≡ rows ff p db
  rows-put_row p k v h = ap (prefixed p) (table-put_row k v) ∙ prefixed-put_other p k v _ h

  pub rows-delete_row :
      (p k : Bytes) → starts_with p k ≡ false → rows ff p (delete_row w k db) ≡ rows ff p db
  rows-delete_row p k h = ap (prefixed p) (table-delete_row k) ∙ prefixed-delete_other p k _ h

  module _ {A : Type 0} (decode : Bytes → Result A) (id_of : A → Bytes) (p : Bytes)
      (keyed : IsKeyed decode id_of p (rows ff p db)) where
    pub put_row-IsKeyed :
        (a : A) (v : Bytes)
        → decode v ≡ ok a
        → IsKeyed decode id_of p (rows ff p (put_row w (row_key p (id_of a)) (ok v) db))
    put_row-IsKeyed a v d =
        rw
          (ap (prefixed p) (table-put_row (p ++ id_of a) v)
            ∙ prefixed-put p (p ++ id_of a) v _ (ff.table_sorted db cf_system)
                (starts_with-append p (id_of a)))
          (put-IsKeyed decode id_of p a v _ d keyed)

    -- A written record is the tenant's, and other tenants' records are as they were.
    pub find-load-put_row :
        (a : A) (v id : Bytes)
        → decode v ≡ ok a
        → find decode id_of p id (
            load_rows decode p
              (w.scan_from (put_row w (row_key p (id_of a)) (ok v) db) cf_system p))
          ≡ (if beq (id_of a) id
              then some a
              else find decode id_of p id (load_rows decode p (w.scan_from db cf_system p)))
    unfolding row_of
    find-load-put_row a v id d =
        find-load decode ff id_of p (put_row w (p ++ id_of a) (ok v) db)
          (has_cf-put_row _ v cf_system ∙ has) id (put_row-IsKeyed a v d)
        ∙ rw
            (
              table-put_row (p ++ id_of a) v,
              lookup-put,
              beq-append p (id_of a) id,
              find-load decode ff id_of p db has id keyed,
            )
            (elim (Bool-cases (beq (id_of a) id)) [
              | inl x ↦ rw x (rw (row_of, d) refl)
              | inr x ↦ rw x refl
            ])

    pub delete_row-IsKeyed :
        (id : Bytes) → IsKeyed decode id_of p (rows ff p (delete_row w (row_key p id) db))
    delete_row-IsKeyed id =
        rw (ap (prefixed p) (table-delete_row (p ++ id)) ∙ prefixed-delete p (p ++ id) _)
          (delete-IsKeyed decode id_of p (p ++ id) _ keyed)

    -- A deleted row is gone, and other tenants' records are as they were.
    pub find-load-delete_row :
        (id j : Bytes)
        → find decode id_of p j
            (load_rows decode p (w.scan_from (delete_row w (row_key p id) db) cf_system p))
          ≡ (if beq id j
              then none
              else find decode id_of p j (load_rows decode p (w.scan_from db cf_system p)))
    unfolding row_of
    find-load-delete_row id j =
        find-load decode ff id_of p (delete_row w (p ++ id) db)
          (has_cf-delete_row _ cf_system ∙ has) j (delete_row-IsKeyed id)
        ∙ rw
            (
              table-delete_row (p ++ id),
              lookup-delete,
              beq-append p id j,
              find-load decode ff id_of p db has j keyed,
            )
            (elim (Bool-cases (beq id j)) [ inl x ↦ rw x refl | inr x ↦ rw x refl ])
