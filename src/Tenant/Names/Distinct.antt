-- ===== src/Tenant/Names/Distinct.antt =====
-- No two column families share a name: not those of one tenant, not those of two tenants.
use rocksqueue.Base.{
  ℕ, ◌≡◌, refl, sym, ap, ◌∙◌, ◌≢◌, false, [], ◌∷◌, ◌++◌, arith, Bool-cases, inl, inr, length,
  length-append,
}
use rocksqueue.Bytes.{Bytes, beq}
use rocksqueue.Bytes.Order.{beq_iff, beq_refl}
use rocksqueue.Tenant.Names.{
  cf_pending, cf_inflight, cf_dlq, pending_suffix, inflight_suffix, dlq_suffix,
}

last : ℕ → Bytes → ℕ
last d [] = d
last d (x ∷ xs) = last x xs

last-append : (d : ℕ) (t : Bytes) (x : ℕ) (s : Bytes) → last d (t ++ x ∷ s) ≡ last x s
unfolding last
last-append d [] x s = refl
last-append d (y ∷ t) x s = last-append y t x s

pub beq_of_ne : (a b : Bytes) → a ≢ b → beq a b ≡ false
beq_of_ne a b h = elim (Bool-cases (beq a b)) [ inl e ↦ absurd (h ((beq_iff a b).0 e)) | inr e ↦ e ]

suffix_ne :
    (t u : Bytes) (x y : ℕ) (s r : Bytes)
    → last x s ≢ last y r
    → beq (t ++ x ∷ s) (u ++ y ∷ r) ≡ false
suffix_ne t u x y s r h =
    beq_of_ne _ _ (λ e. h (sym (last-append 0 t x s) ∙ ap (last 0) e ∙ last-append 0 u y r))

append_cancel : (a b s : Bytes) → a ++ s ≡ b ++ s → a ≡ b
append_cancel [] [] s e = refl
append_cancel [] (y ∷ b) s e = absurd (omega (arith, ap length e, length-append b s))
append_cancel (x ∷ a) [] s e = absurd (omega (arith, ap length e, length-append a s))
append_cancel (x ∷ a) (y ∷ b) s e = ground (arith, append_cancel a b s)

module _ (t u : Bytes) where
  pub pending_inflight : beq (cf_pending t) (cf_inflight u) ≡ false
  unfolding cf_pending cf_inflight last
  pending_inflight = suffix_ne t u _ _ _ _ (λ e. omega arith)

  pub pending_dlq : beq (cf_pending t) (cf_dlq u) ≡ false
  unfolding cf_pending cf_dlq last
  pending_dlq = suffix_ne t u _ _ _ _ (λ e. omega arith)

  pub inflight_pending : beq (cf_inflight t) (cf_pending u) ≡ false
  unfolding cf_pending cf_inflight last
  inflight_pending = suffix_ne t u _ _ _ _ (λ e. omega arith)

  pub inflight_dlq : beq (cf_inflight t) (cf_dlq u) ≡ false
  unfolding cf_inflight cf_dlq last
  inflight_dlq = suffix_ne t u _ _ _ _ (λ e. omega arith)

  pub dlq_pending : beq (cf_dlq t) (cf_pending u) ≡ false
  unfolding cf_pending cf_dlq last
  dlq_pending = suffix_ne t u _ _ _ _ (λ e. omega arith)

  pub dlq_inflight : beq (cf_dlq t) (cf_inflight u) ≡ false
  unfolding cf_inflight cf_dlq last
  dlq_inflight = suffix_ne t u _ _ _ _ (λ e. omega arith)

  pub pending_ne : t ≢ u → beq (cf_pending t) (cf_pending u) ≡ false
  unfolding cf_pending
  pending_ne h = beq_of_ne _ _ (λ e. h (append_cancel t u pending_suffix e))

  pub inflight_ne : t ≢ u → beq (cf_inflight t) (cf_inflight u) ≡ false
  unfolding cf_inflight
  inflight_ne h = beq_of_ne _ _ (λ e. h (append_cancel t u inflight_suffix e))

  pub dlq_ne : t ≢ u → beq (cf_dlq t) (cf_dlq u) ≡ false
  unfolding cf_dlq
  dlq_ne h = beq_of_ne _ _ (λ e. h (append_cancel t u dlq_suffix e))

pub ruleset names = (
  beq_refl, pending_inflight, pending_dlq, inflight_pending, inflight_dlq, dlq_pending,
  dlq_inflight,
)
