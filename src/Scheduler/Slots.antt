-- ===== src/Scheduler/Slots.antt =====
-- The slots that the scheduler hands out.
use rocksqueue.Base.{
  ℕ, ◌+◌, ◌^◌, ◌≤◌, ◌<◌, ◌≡◌, refl, ap, ◌∙◌, ◌==◌, List, [], ◌∷◌, ◌++◌, ltb, arith, Bool-cases, inl,
  inr, ◌⊎◌,
}
use rocksqueue.Bytes.{Bytes}
use rocksqueue.Float.{F64}
use rocksqueue.Scheduler.{
  WfqScheduler, Candidate, Assigned, slots_of, assign, leftover_to, give_leftover, schedule,
  total_weight, sort_candidates, collect,
}

abbrev pub total : List (Bytes × ℕ) → ℕ
total [] = 0
total ((id, n) ∷ l) = n + total l

total-append : (l k : List (Bytes × ℕ)) → total (l ++ k) ≡ total l + total k
total-append [] k = omega arith
total-append ((id, n) ∷ l) k = omega (arith, total-append l k)

module _ {f : F64} (vt : f.Num) (slots weights : ℕ) where
  slots_of-le : (remaining : ℕ) (c : Candidate f) → slots_of slots weights remaining c ≤ remaining
  unfolding slots_of
  slots_of-le remaining c = omega arith

  assign-total :
      (cs : List (Candidate f)) (acc : Assigned f)
      → let r = assign vt slots weights cs acc in
        r.remaining + total r.allocations ≡ acc.remaining + total acc.allocations
  unfolding assign
  assign-total [] acc = refl
  assign-total (c ∷ cs) acc = elim (Bool-cases (acc.remaining == 0)) [
    | inl h ↦ rw (assign, h) refl
    | inr h ↦ elim (Bool-cases (slots_of slots weights acc.remaining c == 0)) [
      | inl z ↦ rw (assign, h) (rw z (assign-total cs acc))
      | inr z ↦
          rw (assign, h)
            (rw z (
              assign-total cs _
              ∙ omega (
                arith,
                slots_of-le acc.remaining c,
                total-append acc.allocations ((c.id, slots_of slots weights acc.remaining c) ∷ []),
              )))
    ]
  ]

module _ {f : F64} (slots : ℕ) (bound : slots < 2 ^ 64) where
  leftover_to-total :
      (l : List (Bytes × ℕ)) (acc : Assigned f)
      → acc.allocations ≡ l
      → acc.remaining + total l ≡ slots
      → ((leftover_to l acc).allocations ≡ []) ⊎ (total (leftover_to l acc).allocations ≡ slots)
  unfolding leftover_to
  leftover_to-total [] acc e h = inl e
  leftover_to-total ((id, n) ∷ rest) acc e h = elim (Bool-cases (ltb 0 acc.remaining)) [
    | inl z ↦ rw z (inr (omega (arith, h, bound)))
    | inr z ↦ rw z (inr (ap total e ∙ ground (arith, h)))
  ]

  give_leftover-total :
      (acc : Assigned f)
      → acc.remaining + total acc.allocations ≡ slots
      → ((give_leftover acc).allocations ≡ []) ⊎ (total (give_leftover acc).allocations ≡ slots)
  unfolding give_leftover
  give_leftover-total acc h = leftover_to-total acc.allocations acc refl h

  -- Whatever the floating-point operations return, a round of the scheduler over `slots` slots
  -- hands out none of them or all of them, never more.
  pub schedule-total :
      (clock : ℕ → ℕ) (s : WfqScheduler f)
      → ((schedule clock slots s).0 ≡ []) ⊎ (total (schedule clock slots s).0 ≡ slots)
  unfolding schedule
  schedule-total clock s = elim (Bool-cases (slots == 0)) [
    | inl h ↦ rw h (inl refl)
    | inr h ↦ elim (Bool-cases (total_weight s.tenants == 0)) [
      | inl z ↦ rw h (rw z (inl refl))
      | inr z ↦ rw h (
          rw z (
            give_leftover-total _ (
              assign-total (f.of_nat s.virtual_time) slots (total_weight s.tenants)
                (sort_candidates (collect clock 0 s.tenants).1)
                (record {
                  tenants = (collect clock 0 s.tenants).0;
                  allocations = [];
                  remaining = slots;
                })
              ∙ omega arith)))
    ]
  ]
