-- ===== src/Baseline/Promotions.antt =====
-- What an update of a baseline may change of its threshold.
use rocksqueue.Base.{
  ltb, ℕ, ◌≤◌, ◌+◌, ◌-◌, drop, ◌++◌, ◌≡◌, refl, true, Option, none, some, List, [], ◌∷◌, length,
  length-append, arith, Bool-cases, inl, inr,
}
use rocksqueue.Float.{F64}
use rocksqueue.Baseline.{
  TenantBaseline, BaselinePromotion, ratio, observe, push_promotion, promote, update_cusum, decide,
  update,
}

-- How an update ends, `b` and `r` being the baseline before and the outcome: the threshold is
-- promoted by more than 5 percent, with a record of it, or it stays.
pub data Updated (f : F64) (b : TenantBaseline f)
    (r : Option (BaselinePromotion f) × TenantBaseline f) : Type 0 where
  promoted :
      (p : BaselinePromotion f)
      → r.0 ≡ some p
      → p.old_threshold ≡ b.spike_threshold
      → f.gt p.new_threshold (f.mul b.spike_threshold (ratio f 105 100)) ≡ true
      → r.1.spike_threshold ≡ p.new_threshold
      → r.1.long_ema ≡ p.new_baseline
      → r.1.promotions ≡ drop (length b.promotions + 1 - 20) (b.promotions ++ p ∷ [])
      → length r.1.promotions ≤ 20
      → Updated f b r
  kept :
      r.0 ≡ none
      → r.1.spike_threshold ≡ b.spike_threshold
      → r.1.promotions ≡ b.promotions
      → Updated f b r

module _ {f : F64} where
  length-push_promotion :
      (p : BaselinePromotion f) (l : List (BaselinePromotion f))
      → length l ≤ 20
      → length (push_promotion f p l) ≤ 20
  unfolding push_promotion
  length-push_promotion p [] h = omega arith
  length-push_promotion p (q ∷ l) h =
      ground (arith, length-append l (p ∷ []), length-append (q ∷ l) (p ∷ []))

  -- The new record is last, and only the oldest can go.
  push_promotion_lem :
      (p : BaselinePromotion f) (l : List (BaselinePromotion f))
      → length l ≤ 20
      → push_promotion f p l ≡ drop (length l + 1 - 20) (l ++ p ∷ [])
  unfolding push_promotion
  push_promotion_lem p [] h = refl
  push_promotion_lem p (q ∷ l) h =
      let n = length-append (q ∷ l) (p ∷ []) in
      elim (Bool-cases (ltb 20 (length ((q ∷ l) ++ p ∷ [])))) [
        | inl c ↦
            let one : length (q ∷ l) + 1 - 20 ≡ 1 = ground (arith, c, n, h) in rw (one, c) refl
        | inr c ↦
            let none : length (q ∷ l) + 1 - 20 ≡ 0 = ground (arith, c, n, h) in rw (none, c) refl
      ]

  -- An update of a baseline with at most 20 recorded promotions either promotes the threshold by
  -- more than 5 percent and records that last, where only the oldest record beyond 20 goes, or changes neither the
  -- threshold nor the records; whatever the floating-point operations return.
  pub update_lem :
      (now : ℕ) (arrival_rate short_alpha long_alpha spike_factor : f.Num) (b : TenantBaseline f)
      → length b.promotions ≤ 20
      → Updated f b (update f now arrival_rate short_alpha long_alpha spike_factor b)
  unfolding update decide promote observe
  update_lem now rate short long factor b h =
      let o = observe f now rate short long b in
      elim (Bool-cases (update_cusum f o.short_ema o.long_ema o.cusum).0) [
        | inr c ↦ rw (update, c) (Updated.kept refl refl refl)
        | inl c ↦
            elim (Bool-cases (
              f.gt (f.mul (f.mul o.rolling_peak (ratio f 8 10)) factor)
                (f.mul b.spike_threshold (ratio f 105 100)))) [
                  | inr g ↦ rw (update, c) (rw g (Updated.kept refl refl refl))
                  | inl g ↦
                      rw (update, c)
                        (rw g (
                          Updated.promoted _ refl refl g refl refl
                            (push_promotion_lem _ b.promotions h)
                            (length-push_promotion _ b.promotions h)))
                ]
      ]
