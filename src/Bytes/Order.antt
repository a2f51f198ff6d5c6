-- ===== src/Bytes/Order.antt =====
-- The order of byte strings is a strict linear order, and equality is its middle case.
use rocksqueue.Base.{◌≡◌, refl, ◌↔◌, true, [], ◌∷◌, ◌++◌, Ordering, arith}
use rocksqueue.Bytes.{Bytes, compare_bytes, beq, starts_with}

abbrev pub flip : Ordering → Ordering
flip Ordering.lt = Ordering.gt
flip Ordering.eq = Ordering.eq
flip Ordering.gt = Ordering.lt

pub compare-flip : (a b : Bytes) → compare_bytes b a ≡ flip (compare_bytes a b)
unfolding compare_bytes
compare-flip [] [] = refl
compare-flip [] (y ∷ ys) = refl
compare-flip (x ∷ xs) [] = refl
compare-flip (x ∷ xs) (y ∷ ys) = ground (arith, compare-flip xs ys)

pub compare_refl : (a : Bytes) → compare_bytes a a ≡ Ordering.eq
unfolding compare_bytes
compare_refl [] = refl
compare_refl (x ∷ xs) = ground (arith, compare_refl xs)

pub eq_of_compare : (a b : Bytes) → compare_bytes a b ≡ Ordering.eq → a ≡ b
unfolding compare_bytes
eq_of_compare [] [] h = refl
eq_of_compare [] (y ∷ ys) h = cc
eq_of_compare (x ∷ xs) [] h = cc
eq_of_compare (x ∷ xs) (y ∷ ys) h = ground (arith, eq_of_compare xs ys)

pub compare_trans :
    (a b c : Bytes)
    → compare_bytes a b ≡ Ordering.lt
    → compare_bytes b c ≡ Ordering.lt
    → compare_bytes a c ≡ Ordering.lt
unfolding compare_bytes
compare_trans [] [] c h k = cc
compare_trans [] (y ∷ ys) [] h k = cc
compare_trans [] (y ∷ ys) (z ∷ zs) h k = refl
compare_trans (x ∷ xs) [] c h k = cc
compare_trans (x ∷ xs) (y ∷ ys) [] h k = cc
compare_trans (x ∷ xs) (y ∷ ys) (z ∷ zs) h k = ground (arith, compare_trans xs ys zs)

pub beq_iff : (a b : Bytes) → (beq a b ≡ true) ↔ (a ≡ b)
unfolding beq
beq_iff [] [] = (λ _. refl, λ _. refl)
beq_iff [] (y ∷ ys) = (λ h. cc, λ h. cc)
beq_iff (x ∷ xs) [] = (λ h. cc, λ h. cc)
beq_iff (x ∷ xs) (y ∷ ys) = ground (arith, beq_iff xs ys)

pub beq_refl : (a : Bytes) → beq a a ≡ true
beq_refl a = (beq_iff a a).1 refl

-- The test by `==` is the middle case of the order.
pub beq-compare : (a b : Bytes) → (beq a b ≡ true) ↔ (compare_bytes a b ≡ Ordering.eq)
beq-compare a b =
    (λ h. subst_right a b ((beq_iff a b).0 h), λ h. (beq_iff a b).1 (eq_of_compare a b h))
  where
    subst_right : (a b : Bytes) → a ≡ b → compare_bytes a b ≡ Ordering.eq
    subst_right a b e = rw (← e) (compare_refl a)

pub starts_with-append : (p k : Bytes) → starts_with p (p ++ k) ≡ true
unfolding starts_with
starts_with-append [] k = refl
starts_with-append (x ∷ p) k = ground (arith, starts_with-append p k)
