-- ===== src/Tenant/Settle/Single.antt =====
-- The acknowledgement of one task.
use rocksqueue.Base.{
  ◌≡◌, refl, ap, ◌∙◌, Bool, true, false, Option, none, some, [], ◌∷◌, length, arith, ◌==◌, ok,
  if◌then◌else◌, step_ok,
}
use rocksqueue.Bytes.{Bytes}
use rocksqueue.Bytes.Order.{beq_iff}
use rocksqueue.Rocks.Table.{lookup, delete}
use rocksqueue.Rocks.Table.Lookup.{
  lookup-delete, length-delete, delete-IsSorted, delete_absent, table_ext,
}
use rocksqueue.Rocks.World.{World, FaultFree}
use rocksqueue.Tenant.State.{Registry}
use rocksqueue.Tenant.State.View.{Provisioned, pending, inflight, dlq}
use rocksqueue.Tenant.Settle.{elem, ack_batch, ack}
use rocksqueue.Tenant.Settle.Acks.{ack_batch_lem}

-- Whether a lookup found something.
abbrev pub is_found {ℓ} : {A : Type ℓ} → Option A → Bool
is_found none = false
is_found (some v) = true

module _ {w : World} (ff : FaultFree w) (tenant key : Bytes) (s : Registry w)
    (p : Provisioned w tenant s) where
  batch_table :
      inflight ff tenant (ack_batch w tenant (key ∷ []) s).1 ≡ delete key (inflight ff tenant s)
  unfolding elem
  batch_table =
      table_ext _ _ (ff.table_sorted _ _) (delete-IsSorted key _ (ff.table_sorted s.db _)) (λ j.
        (ack_batch_lem ff tenant (key ∷ []) s p).3 j
        ∙ ground (arith, beq_iff key j, lookup-delete key j (inflight ff tenant s)))

  batch_count :
      (found : Option Bytes)
      → lookup key (inflight ff tenant s) ≡ found
      → (ack_batch_lem ff tenant (key ∷ []) s p).0 ≡ (if is_found found then 1 else 0)
  batch_count none e = omega (
    arith,
    (ack_batch_lem ff tenant (key ∷ []) s p).2,
    ap length (batch_table ∙ delete_absent key _ e),
  )
  batch_count (some v) e = omega (
    arith,
    (ack_batch_lem ff tenant (key ∷ []) s p).2,
    ap length batch_table,
    length-delete key v (inflight ff tenant s) (ff.table_sorted s.db _) e,
  )

  counted :
      (found : Option Bytes)
      → lookup key (inflight ff tenant s) ≡ found
      → ((ack_batch_lem ff tenant (key ∷ []) s p).0 == 1) ≡ is_found found
  counted none e = rw (batch_count none e) refl
  counted (some v) e = rw (batch_count (some v) e) refl

  -- On a database where no call fails, the acknowledgement of one key deletes it from inflight,
  -- tells whether it was there, and leaves pending and the DLQ as they were.
  pub ack_lem :
      let r = ack w tenant key s in
      (r.0 ≡ ok (is_found (lookup key (inflight ff tenant s))))
      × (inflight ff tenant r.1 ≡ delete key (inflight ff tenant s))
      × (pending ff tenant r.1 ≡ pending ff tenant s)
      × (dlq ff tenant r.1 ≡ dlq ff tenant s)
  unfolding ack
  ack_lem =
      let a = ack_batch_lem ff tenant (key ∷ []) s p in
      let run : ack w tenant key s ≡ (
        ok (is_found (lookup key (inflight ff tenant s))),
        (ack_batch w tenant (key ∷ []) s).1,
      ) =
        step_ok _ (λ i. (a.1 i, (ack_batch w tenant (key ∷ []) s).1))
          (λ i. (
            ok (counted (lookup key (inflight ff tenant s)) refl i),
            (ack_batch w tenant (key ∷ []) s).1,
          )) in
      rw run (refl, batch_table, a.4, a.5)
