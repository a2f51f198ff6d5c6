-- ===== src/Tenant/Places/Moves.antt =====
-- The tables that a dequeue and a pass of the reaper move, key by key, and the keys of fresh records.
use rocksqueue.Base.{
  subst, ℕ, zero, suc, ◌+◌, ◌%◌, ◌^◌, ◌≤◌, ◌<◌, ◌≡◌, refl, ◌∙◌, Bool, true, false, ◌&&◌, ◌||◌, List,
  [], ◌∷◌, arith, length, Bool-cases, Result-cases, inl, inr,
}
use rocksqueue.Bytes.{Bytes, beq}
use rocksqueue.Bytes.Order.{beq_iff}
use rocksqueue.Rocks.Table.{Table, IsSorted}
use rocksqueue.Rocks.World.{World, FaultFree}
use rocksqueue.Task.{Task}
use rocksqueue.Task.Keys.{encode_key}
use rocksqueue.Task.Keys.Laws.{decode_key_seq-encode_key}
use rocksqueue.Tenant.Dequeue.Loop.{to_inflight, to_dlq}
use rocksqueue.Tenant.Dlq.Loop.{replayed}
use rocksqueue.Tenant.Enqueue.Append.{new_entries, advance}
use rocksqueue.Tenant.Settle.{elem}
use rocksqueue.Reaper.{is_expired}
use rocksqueue.Reaper.Loop.{taken, reclaimed_entries, poisoned_entries}
use rocksqueue.Tenant.Places.{present, numbered}
use rocksqueue.Tenant.Places.Tables.{present-Above}

-- `a` is one of `b` and `c`, and they exclude each other.
abbrev pub Parted : (a b c : Bool) → Type 0
Parted a b c = (a ≡ (b || c)) × ((b && c) ≡ false)

module _ {w : World} (ff : FaultFree w) (tenant queue : Bytes) (clock : ℕ → ℕ) (j : Bytes) where
  -- A key that a dequeue takes goes to inflight or to the DLQ.
  pub front-Parted :
      (deadline i : ℕ) (t : Table)
      → IsSorted t
      → Parted
          (present j t)
          (present j (to_inflight ff tenant queue clock deadline t))
          (present j (to_dlq ff tenant queue clock i t))
  unfolding present to_inflight to_dlq
  front-Parted deadline i [] s = (refl, refl)
  front-Parted deadline i ((k, v) ∷ t) s = elim (Result-cases (w.deserialize v)) [
    | inl (task, e) ↦
        rw (e, to_inflight, to_dlq)
          (ground (arith, front-Parted deadline i t s.1, present-Above k j t, s.0))
    | inr (q, e) ↦
        rw (e, to_inflight, to_dlq)
          (ground (arith, front-Parted deadline (suc i) t s.1, present-Above k j t, s.0))
  ]

  pub elem-taken : (t : Table) → elem j (taken w (clock 0) t) ≡ true → present j t ≡ true
  unfolding present elem taken
  elem-taken [] h = h
  elem-taken ((k, v) ∷ t) h = ground (arith, elem-taken t)

  -- A key that the reaper takes goes to pending or to the DLQ.
  pub taken-Parted :
      (i : ℕ) (t : Table)
      → IsSorted t
      → Parted
          (elem j (taken w (clock 0) t))
          (present j (reclaimed_entries ff tenant queue clock t))
          (present j (poisoned_entries ff tenant queue clock i t))
  unfolding present elem taken reclaimed_entries poisoned_entries
  taken-Parted i [] s = (refl, refl)
  taken-Parted i ((k, v) ∷ t) s = elim (Result-cases (w.deserialize v)) [
    | inr (q, e) ↦
        rw (e, taken, reclaimed_entries, poisoned_entries)
          (ground (arith, taken-Parted (suc i) t s.1, elem-taken t, present-Above k j t, s.0))
    | inl (task, e) ↦ elim (Bool-cases (is_expired (clock 0) task)) [
      | inl x ↦
          rw (e, taken, reclaimed_entries, poisoned_entries)
            (rw x (ground (arith, taken-Parted i t s.1, elem-taken t, present-Above k j t, s.0)))
      | inr x ↦ rw (e, taken, reclaimed_entries, poisoned_entries) (rw x (taken-Parted i t s.1))
    ]
  ]

pub numbered_mono : (m n : ℕ) (k : Bytes) → m ≤ n → numbered m k ≡ true → numbered n k ≡ true
unfolding numbered
numbered_mono m n k b h = ground arith

-- A key made for a number below `n` that is at least `m`.
abbrev pub Between : (m n : ℕ) (k : Bytes) → Type 0
Between m n k = (numbered m k ≡ false) × (numbered n k ≡ true)

pub encode_key-Between :
    (q : Bytes) (m s n : ℕ) → m ≤ s → s < n → n ≤ 2 ^ 64 → Between m n (encode_key q s)
unfolding numbered
encode_key-Between q m s n a b c =
    rw (numbered, decode_key_seq-encode_key q s (omega arith)) (ground arith)

module _ {w : World} (ff : FaultFree w) (j : Bytes) (m n : ℕ) (top : n < 2 ^ 64) where
  fresh : (q : Bytes) (s : ℕ) → m ≤ s → s < n → beq (encode_key q s) j ≡ true → Between m n j
  fresh q s a b e =
      subst (Between m n) ((beq_iff _ _).0 e) (encode_key-Between q m s n a b (omega arith))

  -- The keys of new records.
  pub new_entries-Between :
      (tenant queue : Bytes) (now seq : ℕ) (ps : List (Bytes × Bytes))
      → m ≤ seq
      → seq + length ps ≤ n
      → present j (new_entries ff tenant queue now seq ps) ≡ true
      → Between m n j
  unfolding present new_entries
  new_entries-Between tenant queue now seq [] a b h = cc h
  new_entries-Between tenant queue now seq ((id, payload) ∷ ps) a b h =
      elim (Bool-cases (beq (encode_key queue seq) j)) [
        | inl e ↦ fresh queue seq a (omega (arith, b)) e
        | inr e ↦
            let next : (seq + 1) % 2 ^ 64 ≡ seq + 1 = omega (arith, b, top) in
            new_entries-Between tenant queue now ((seq + 1) % 2 ^ 64) ps (rw next (omega arith))
              (rw next (omega (arith, b))) (rw e at h)
      ]

  -- The keys of replayed records.
  pub replayed-Between :
      (tenant : Bytes) (seq : ℕ) (tasks : List (Bytes × Task))
      → m ≤ seq
      → seq + length tasks ≤ n
      → present j (replayed ff tenant seq tasks) ≡ true
      → Between m n j
  unfolding present replayed
  replayed-Between tenant seq [] a b h = cc h
  replayed-Between tenant seq ((k, task) ∷ tasks) a b h =
      elim (Bool-cases (beq (encode_key task.queue seq) j)) [
        | inl e ↦ fresh task.queue seq a (omega (arith, b)) e
        | inr e ↦
            let next : (seq + 1) % 2 ^ 64 ≡ seq + 1 = omega (arith, b, top) in
            replayed-Between tenant ((seq + 1) % 2 ^ 64) tasks (rw next (omega arith))
              (rw next (omega (arith, b))) (rw e at h)
      ]

pub advance_lem : (n seq : ℕ) → seq + n < 2 ^ 64 → advance n seq ≡ seq + n
unfolding advance
advance_lem zero seq h = omega arith
advance_lem (suc n) seq h =
    let next : (seq + 1) % 2 ^ 64 ≡ seq + 1 = omega arith in
    rw next (advance_lem n (seq + 1) (omega arith) ∙ omega arith)
