-- ===== src/Tenant/Settle/Delivered.antt =====
-- A dequeue and the acknowledgement of what it handed out.
use rocksqueue.Base.{
  ℕ, ◌+◌, ◌≡◌, refl, sym, ap, ◌∙◌, true, false, none, List, [], ◌∷◌, map, length, drop, ok, arith,
  Result-cases, Bool-cases, inl, inr,
}
use rocksqueue.Bytes.{Bytes}
use rocksqueue.Bytes.Order.{beq_refl}
use rocksqueue.Rocks.Table.{Table, Above, IsSorted, lookup, put, put_all}
use rocksqueue.Rocks.Table.Lookup.{length-put, lookup-put, table_ext}
use rocksqueue.Rocks.Table.Prefix.{prefixed-IsSorted}
use rocksqueue.Rocks.World.{World, FaultFree}
use rocksqueue.Task.{Task}
use rocksqueue.Task.Keys.{queue_prefix}
use rocksqueue.Tenant.Dequeue.{dequeue_batch_unlocked, saturating_add}
use rocksqueue.Tenant.Dequeue.Effect.{dequeue_batch_unlocked_lem, front}
use rocksqueue.Tenant.Dequeue.Limit.{length-to_inflight}
use rocksqueue.Tenant.Dequeue.Front.{delivered, consumed-take}
use rocksqueue.Tenant.Dequeue.Loop.{to_inflight}
use rocksqueue.Tenant.Places.{present, IsWellPlaced}
use rocksqueue.Tenant.Places.Kept.{dequeue-IsWellPlaced}
use rocksqueue.Tenant.Places.Moves.{front-Parted}
use rocksqueue.Tenant.Places.Tables.{
  present-put, present-prefixed, present-take, take-IsSorted, present-Above,
}
use rocksqueue.Tenant.Settle.{elem, ack_batch}
use rocksqueue.Tenant.Settle.Acks.{ack_batch_lem}
use rocksqueue.Tenant.State.{Registry}
use rocksqueue.Tenant.State.View.{pending, inflight, dlq, of_queue}

lookup-absent : (k : Bytes) (t : Table) → present k t ≡ false → lookup k t ≡ none
unfolding lookup present
lookup-absent k [] h = refl
lookup-absent k ((j, v) ∷ t) h = ground (arith, lookup-absent k t)

-- Keys that are not among the entries keep their records.
lookup-put_all_other :
    (j : Bytes) (es t : Table) → present j es ≡ false → lookup j (put_all es t) ≡ lookup j t
unfolding put_all present
lookup-put_all_other j [] t h = refl
lookup-put_all_other j ((k, v) ∷ es) t h =
    lookup-put_all_other j es (put k v t) (ground arith) ∙ ground (arith, lookup-put k j v t)

-- Entries with new keys, in order, are all added.
length-put_all_fresh :
    (es t : Table)
    → IsSorted es
    → ((j : Bytes) → present j es ≡ true → present j t ≡ false)
    → length (put_all es t) ≡ length es + length t
unfolding put_all present
length-put_all_fresh [] t s h = omega arith
length-put_all_fresh ((k, v) ∷ es) t s h =
    let rest =
      length-put_all_fresh es (put k v t) s.1
        (λ j x. ground (arith, present-put k j v t, h j, present-Above k j es, s.0)) in
    let absent = length-put k v t (lookup-absent k t (h k (rw (present, beq_refl) refl))) in
    omega (arith, rest, absent)

module _ {w : World} (ff : FaultFree w) (tenant queue : Bytes) (clock : ℕ → ℕ) where
  Above-to_inflight :
      (d : ℕ) (k : Bytes) (t : Table) → Above k t → Above k (to_inflight ff tenant queue clock d t)
  unfolding to_inflight
  Above-to_inflight d k [] a = tt
  Above-to_inflight d k ((j, v) ∷ t) a = elim (Result-cases (w.deserialize v)) [
    | inl (task, e) ↦ rw (e, to_inflight) (a.0, Above-to_inflight d k t a.1)
    | inr (q, e) ↦ rw (e, to_inflight) (Above-to_inflight d k t a.1)
  ]

  to_inflight-IsSorted :
      (d : ℕ) (t : Table) → IsSorted t → IsSorted (to_inflight ff tenant queue clock d t)
  unfolding to_inflight
  to_inflight-IsSorted d [] s = tt
  to_inflight-IsSorted d ((j, v) ∷ t) s = elim (Result-cases (w.deserialize v)) [
    | inl (task, e) ↦
        rw (e, to_inflight) (Above-to_inflight d j t s.0, to_inflight-IsSorted d t s.1)
    | inr (q, e) ↦ rw (e, to_inflight) (to_inflight-IsSorted d t s.1)
  ]

  elem-delivered :
      (d : ℕ) (j : Bytes) (t : Table)
      → elem j (map (λ e. e.0) (delivered w d t))
        ≡ present j (to_inflight ff tenant queue clock d t)
  unfolding elem present delivered to_inflight
  elem-delivered d j [] = refl
  elem-delivered d j ((k, v) ∷ t) = ground (arith, elem-delivered d j t)

  module _ (limit visibility_timeout_ms : ℕ) (s : Registry w) (h : IsWellPlaced ff tenant s) where
    -- What the dequeue sees and returns.
    abbrev taken_front : Table
    taken_front = front ff tenant queue clock limit s

    abbrev pub handed_out : List (Bytes × Task)
    handed_out = delivered w (saturating_add (clock 0) visibility_timeout_ms) taken_front

    abbrev handed_keys : List Bytes
    handed_keys = map (λ e. e.0) handed_out

    abbrev after_dequeue : Registry w
    after_dequeue = (dequeue_batch_unlocked w tenant queue clock limit visibility_timeout_ms s).1

    abbrev after_ack : Registry w
    after_ack = (ack_batch w tenant handed_keys after_dequeue).1

    abbrev new_records : Table
    new_records =
        to_inflight ff tenant queue clock (saturating_add (clock 0) visibility_timeout_ms)
          taken_front

    front-IsSorted : IsSorted taken_front
    front-IsSorted =
        let p = pending ff tenant s in
        rw (consumed-take w limit (of_queue queue p)) (
          take-IsSorted (length taken_front) (of_queue queue p)
            (prefixed-IsSorted (queue_prefix queue) p (ff.table_sorted s.db _)))

    -- A key that was pending is not inflight.
    new_records-absent :
        (j : Bytes) → present j new_records ≡ true → present j (inflight ff tenant s) ≡ false
    new_records-absent j x =
        let parted =
          front-Parted ff tenant queue clock j (saturating_add (clock 0) visibility_timeout_ms) 0
            taken_front front-IsSorted in
        let within = present-take (length taken_front) j (of_queue queue (pending ff tenant s)) (
          ap (present j) (sym (consumed-take w limit (of_queue queue (pending ff tenant s))))
          ∙ ground (arith, parted)) in
        ground
          (arith, h.placed j, present-prefixed (queue_prefix queue) j (pending ff tenant s) within)

    inflight-after_ack : inflight ff tenant after_ack ≡ inflight ff tenant s
    inflight-after_ack =
        let e =
          dequeue_batch_unlocked_lem ff tenant queue clock limit visibility_timeout_ms s
            h.provisioned in
        let placed = dequeue-IsWellPlaced ff tenant queue clock limit visibility_timeout_ms s h in
        let a = ack_batch_lem ff tenant handed_keys after_dequeue placed.provisioned in
        table_ext _ _ (ff.table_sorted _ _) (ff.table_sorted _ _) (λ j.
          a.3 j
          ∙ rw (e.4, elem-delivered (saturating_add (clock 0) visibility_timeout_ms) j taken_front)
              (elim (Bool-cases (present j new_records)) [
                | inl x ↦ rw x (sym (lookup-absent j _ (new_records-absent j x)))
                | inr x ↦ rw x (lookup-put_all_other j new_records _ x)
              ]))

    -- On a database where no call fails and a tenant whose records are in their places, if the tasks
    -- that a dequeue hands out are acknowledged in one batch, then every one of them is counted,
    -- inflight is as it was before the dequeue, the queue has lost exactly the front that
    -- the dequeue took, and the DLQ has only what the dequeue put there.
    pub dequeue-ack_batch :
        (n : ℕ) × ((dequeue_batch_unlocked w tenant queue clock limit visibility_timeout_ms s).0
          ≡ ok handed_out)
        × ((ack_batch w tenant handed_keys after_dequeue).0 ≡ ok n)
        × (n ≡ length handed_out)
        × (inflight ff tenant after_ack ≡ inflight ff tenant s)
        × (of_queue queue (pending ff tenant after_ack)
            ≡ drop (length taken_front) (of_queue queue (pending ff tenant s)))
        × (dlq ff tenant after_ack ≡ dlq ff tenant after_dequeue)
    dequeue-ack_batch =
        let d = saturating_add (clock 0) visibility_timeout_ms in
        let e =
          dequeue_batch_unlocked_lem ff tenant queue clock limit visibility_timeout_ms s
            h.provisioned in
        let placed = dequeue-IsWellPlaced ff tenant queue clock limit visibility_timeout_ms s h in
        let a = ack_batch_lem ff tenant handed_keys after_dequeue placed.provisioned in
        let count : a.0 + length (inflight ff tenant s)
            ≡ length new_records + length (inflight ff tenant s) =
          ap (λ t. a.0 + length t) (sym inflight-after_ack)
          ∙ a.2
          ∙ ap length e.4
          ∙ length-put_all_fresh new_records (inflight ff tenant s)
              (to_inflight-IsSorted d taken_front front-IsSorted) new_records-absent in
        (
          a.0,
          e.0,
          a.1,
          omega (arith, count, length-to_inflight ff tenant queue clock d taken_front),
          inflight-after_ack,
          ap (of_queue queue) a.4 ∙ e.2,
          a.5,
        )
