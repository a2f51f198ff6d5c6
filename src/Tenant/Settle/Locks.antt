-- ===== src/Tenant/Settle/Locks.antt =====
-- The order in which a batch of acknowledgements takes its locks.
use rocksqueue.Base.{
  ◌≡◌, refl, sym, ap, ◌∙◌, true, false, List, [], ◌∷◌, ◌++◌, map, All, Ordering, arith, ◌||◌,
  append-nil, append_assoc,
}
use rocksqueue.Bytes.{Bytes, beq, compare_bytes}
use rocksqueue.Bytes.Order.{
  compare-flip, compare_trans, eq_of_compare, beq_iff, beq_refl, beq-compare,
}
use rocksqueue.Rocks.World.{World, FaultFree}
use rocksqueue.Store.Rows.{beq-append}
use rocksqueue.Tenant.Names.{lock_name}
use rocksqueue.Tenant.State.{Registry, ensure}
use rocksqueue.Tenant.State.View.{Provisioned, commit-ack_locks}
use rocksqueue.Tenant.Settle.{queue_of_key, insert_name, sort_dedup, elem, ack_queues, ack_batch}
use rocksqueue.Tenant.Settle.Acks.{ack_batch_run, locks_after}

-- Each name is below all later ones, so none occurs twice.
abbrev pub IsIncreasing : List Bytes → Type 0
IsIncreasing [] = Unit
IsIncreasing (k ∷ ks) = All (λ j. compare_bytes k j ≡ Ordering.lt) ks × IsIncreasing ks

All-insert_name :
    (a k : Bytes) (ks : List Bytes)
    → compare_bytes a k ≡ Ordering.lt
    → All (λ j. compare_bytes a j ≡ Ordering.lt) ks
    → All (λ j. compare_bytes a j ≡ Ordering.lt) (insert_name k ks)
unfolding insert_name
All-insert_name a k [] h u = (h, tt)
All-insert_name a k (j ∷ ks) h u = ground (arith, All-insert_name a k ks h u.1)

above_least :
    (k j : Bytes) (ks : List Bytes)
    → compare_bytes k j ≡ Ordering.lt
    → All (λ i. compare_bytes j i ≡ Ordering.lt) ks
    → All (λ i. compare_bytes k i ≡ Ordering.lt) ks
above_least k j [] h u = tt
above_least k j (i ∷ ks) h u = (compare_trans k j i h u.0, above_least k j ks h u.1)

insert_name-IsIncreasing :
    (k : Bytes) (ks : List Bytes) → IsIncreasing ks → IsIncreasing (insert_name k ks)
unfolding insert_name
insert_name-IsIncreasing k [] s = (tt, tt)
insert_name-IsIncreasing k (j ∷ ks) s = ground (
  arith,
  insert_name-IsIncreasing k ks s.1,
  All-insert_name j k ks,
  above_least k j ks,
  compare-flip k j,
)

elem-insert_name :
    (i k : Bytes) (ks : List Bytes) → elem i (insert_name k ks) ≡ (beq k i || elem i ks)
unfolding insert_name elem
elem-insert_name i k [] = refl
elem-insert_name i k (j ∷ ks) =
    ground (arith, elem-insert_name i k ks, eq_of_compare k j, beq_iff j i, beq_iff k i)

sort_dedup-IsIncreasing : (ks : List Bytes) → IsIncreasing (sort_dedup ks)
unfolding sort_dedup
sort_dedup-IsIncreasing [] = tt
sort_dedup-IsIncreasing (k ∷ ks) = insert_name-IsIncreasing k _ (sort_dedup-IsIncreasing ks)

elem-sort_dedup : (i : Bytes) (ks : List Bytes) → elem i (sort_dedup ks) ≡ elem i ks
unfolding sort_dedup elem
elem-sort_dedup i [] = refl
elem-sort_dedup i (k ∷ ks) =
    elem-insert_name i k (sort_dedup ks) ∙ ground (arith, elem-sort_dedup i ks)

ack_queues-IsIncreasing :
    (w : World) (keys : List Bytes)
    → IsIncreasing (ack_queues w keys)
      × ((queue : Bytes)
          → elem queue (ack_queues w keys)
            ≡ elem queue (map (λ key. w.from_utf8_lossy (queue_of_key key)) keys))
unfolding ack_queues
ack_queues-IsIncreasing w keys = (sort_dedup-IsIncreasing _, λ queue. elem-sort_dedup queue _)

ensure_new : (k : Bytes) (ks : List Bytes) → elem k ks ≡ false → ensure k ks ≡ ks ++ k ∷ []
unfolding ensure elem
ensure_new k [] h = refl
ensure_new k (j ∷ ks) h = ground (arith, ensure_new k ks)

elem-snoc : (i k : Bytes) (ks : List Bytes) → elem i (ks ++ k ∷ []) ≡ (elem i ks || beq k i)
unfolding elem
elem-snoc i k [] = ground arith
elem-snoc i k (j ∷ ks) = ground (arith, elem-snoc i k ks)

beq-lock_name : (tenant a b : Bytes) → beq (lock_name tenant a) (lock_name tenant b) ≡ beq a b
unfolding lock_name beq
beq-lock_name tenant a b = beq-append tenant (b'/' ∷ a) (b'/' ∷ b) ∙ ground arith

-- A name above others is none of them.
elem-below :
    (k j : Bytes) (ks : List Bytes)
    → All (λ i. compare_bytes k i ≡ Ordering.lt) ks
    → elem j ks ≡ true
    → beq k j ≡ false
unfolding elem
elem-below k j [] h e = cc e
elem-below k j (i ∷ ks) h e =
    ground (arith, elem-below k j ks h.1, h.0, e, beq-compare k i, beq_iff i j, beq_iff k j)

-- Locks that are new are made one after the other.
locks_after_new :
    (tenant : Bytes) (queues locks : List Bytes)
    → IsIncreasing queues
    → ((queue : Bytes) → elem queue queues ≡ true → elem (lock_name tenant queue) locks ≡ false)
    → locks_after tenant queues locks ≡ locks ++ map (lock_name tenant) queues
unfolding elem
locks_after_new tenant [] locks s h = sym (append-nil locks)
locks_after_new tenant (q ∷ qs) locks s h =
    let first = ensure_new (lock_name tenant q) locks (h q (rw (elem, beq_refl) refl)) in
    ap (locks_after tenant qs) first
    ∙ locks_after_new tenant qs (locks ++ lock_name tenant q ∷ []) s.1 (λ queue e. ground (
      arith,
      elem-snoc (lock_name tenant queue) (lock_name tenant q) locks,
      beq-lock_name tenant q queue,
      elem-below q queue qs s.0 e,
      h queue,
      e,
    ))
    ∙ append_assoc locks (lock_name tenant q ∷ []) (map (lock_name tenant) qs)

-- On a database where no call fails, where no lock has been made yet for the queues of the keys, a
-- batch of acknowledgements makes the locks of exactly these queues, each once, in increasing order
-- of their names, whatever the order of the keys.
pub ack_batch-IsIncreasing :
    {w : World} (ff : FaultFree w) (tenant : Bytes) (keys : List Bytes) (s : Registry w)
    → Provisioned w tenant s
    → ((queue : Bytes)
        → elem queue (map (λ key. w.from_utf8_lossy (queue_of_key key)) keys) ≡ true
        → elem (lock_name tenant queue) s.ack_locks ≡ false)
    → (queues : List Bytes) × IsIncreasing queues
      × ((queue : Bytes)
          → elem queue queues ≡ elem queue (map (λ key. w.from_utf8_lossy (queue_of_key key)) keys))
      × ((ack_batch w tenant keys s).1.ack_locks ≡ s.ack_locks ++ map (lock_name tenant) queues)
ack_batch-IsIncreasing {w} ff tenant keys s p fresh =
    let q = ack_queues-IsIncreasing w keys in
    let r = ack_batch_run ff tenant keys s p in
    (
      ack_queues w keys,
      q.0,
      q.1,
      ap (λ x. x.1.ack_locks) r.2
          ∙ commit-ack_locks ff _ _
          ∙ r.5
          ∙ locks_after_new tenant (ack_queues w keys) s.ack_locks q.0
              (λ queue e. fresh queue (sym (q.1 queue) ∙ e)),
    )
