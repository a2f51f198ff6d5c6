-- ===== src/Task/Keys/Laws.antt =====
-- Keys of one queue sort by sequence number, and the number can be read back.
use rocksqueue.Base.{
  ◌∙◌, ℕ, zero, suc, ◌-◌, ◌*◌, ◌/◌, ◌%◌, ◌^◌, ◌<◌, ◌≤◌, ◌≡◌, refl, ◌↔◌, ◌⊎◌, inl, inr, true, false,
  some, [], ◌∷◌, ◌++◌, Ordering, arith, length, length-append, ap, drop-length-append, append_assoc,
}
use native.Mathlib.Nat.{pow-suc, le-div_iff_mul-le, div-mul-le_self, mod-lt, div-add-mod}
use native.Mathlib.Decide.{dec_lt}
use rocksqueue.Bytes.{Bytes, compare_bytes, starts_with, contains}
use rocksqueue.Bytes.Order.{starts_with-append}
use rocksqueue.Task.Keys.{be_bytes, from_be_bytes, encode_key, queue_prefix, decode_key_seq}

length-be_bytes : (n x : ℕ) → length (be_bytes n x) ≡ n
unfolding be_bytes
length-be_bytes zero x = refl
length-be_bytes (suc n) x = ap suc (length-be_bytes n (x % 256 ^ n))

pow_pos : (n : ℕ) → 0 < 256 ^ n
pow_pos zero = omega arith
pow_pos (suc n) = rw pow-suc (let p = pow_pos n in grind arith)

from_be_bytes-be_bytes : (n x : ℕ) → x < 256 ^ n → from_be_bytes (be_bytes n x) ≡ x
unfolding be_bytes from_be_bytes
from_be_bytes-be_bytes zero x h = let h' : x < 1 = h in omega arith
from_be_bytes-be_bytes (suc n) x h =
    rw
      (
        length-be_bytes n (x % 256 ^ n),
        from_be_bytes-be_bytes n (x % 256 ^ n) (let p = pow_pos n in omega arith),
      )
      (let p = pow_pos n in grind arith)

split :
    (x y p : ℕ)
    → x < y
    → 0 < p
    → (x / p < y / p) ⊎ ((x / p ≡ y / p) × (x % p < y % p) × (y % p < p))
split x y p h z = elim (dec_lt (x / p) (y / p)) [
  | yes less ↦ inl less
  | no same ↦ inr (
      let le : x / p ≤ y / p =
        (le-div_iff_mul-le {y = y} z).1 (let m = div-mul-le_self x p in omega arith) in
      let e : x / p ≡ y / p = omega arith in
      (e, omega (arith, div-add-mod x p, div-add-mod y p, ap (λ (t : ℕ). p * t) e), mod-lt y z))
]

compare-be_bytes :
    (n x y : ℕ) → x < y → y < 256 ^ n → compare_bytes (be_bytes n x) (be_bytes n y) ≡ Ordering.lt
unfolding be_bytes compare_bytes
compare-be_bytes zero x y h b = let h' : y < 1 = b in absurd (omega arith)
compare-be_bytes (suc n) x y h b = ground (
  arith,
  compare-be_bytes n (x % 256 ^ n) (y % 256 ^ n),
  pow_pos n,
  split x y (256 ^ n) h (pow_pos n),
)

compare-append : (p a b : Bytes) → compare_bytes (p ++ a) (p ++ b) ≡ compare_bytes a b
unfolding compare_bytes
compare-append [] a b = refl
compare-append (x ∷ p) a b = ground (arith, compare-append p a b)

-- Byte order on the keys of one queue is the order of the sequence numbers.
pub compare-encode_key :
    (q : Bytes) (s t : ℕ)
    → s < t
    → t < 2 ^ 64
    → compare_bytes (encode_key q s) (encode_key q t) ≡ Ordering.lt
unfolding encode_key
compare-encode_key q s t h b =
    rw (compare-append q (0 ∷ be_bytes 8 s) (0 ∷ be_bytes 8 t))
      (unfold compare_bytes in compare-be_bytes 8 s t h (omega arith))

decode_suffix : (p b : Bytes) → length b ≡ 8 → decode_key_seq (p ++ b) ≡ some (from_be_bytes b)
unfolding decode_key_seq
decode_suffix p b h =
    let front : length (p ++ b) - 8 ≡ length p = omega (arith, length-append p b) in
    rw (front, drop-length-append p b) (ground (arith, length-append p b))

-- Every `u64` sequence number that a key is made with is read back from the key.
pub decode_key_seq-encode_key :
    (q : Bytes) (s : ℕ) → s < 2 ^ 64 → decode_key_seq (encode_key q s) ≡ some s
unfolding encode_key
decode_key_seq-encode_key q s h = rw (← append_assoc q (0 ∷ []) (be_bytes 8 s)) (
    decode_suffix (q ++ 0 ∷ []) (be_bytes 8 s) (length-be_bytes 8 s)
    ∙ ap some (from_be_bytes-be_bytes 8 s h))

prefix_covers :
    (p q r : Bytes)
    → contains 0 p ≡ false
    → contains 0 q ≡ false
    → starts_with (p ++ 0 ∷ []) (q ++ 0 ∷ r) ≡ true
    → p ≡ q
unfolding starts_with contains
prefix_covers [] [] r hp hq h = refl
prefix_covers [] (y ∷ q) r hp hq h = ground arith
prefix_covers (x ∷ p) [] r hp hq h = ground arith
prefix_covers (x ∷ p) (y ∷ q) r hp hq h = ground (arith, prefix_covers p q r)

pub starts_with_self : (q : Bytes) (s : ℕ) → starts_with (queue_prefix q) (encode_key q s) ≡ true
unfolding encode_key queue_prefix
starts_with_self q s =
    rw (← append_assoc q (0 ∷ []) (be_bytes 8 s)) (starts_with-append (q ++ 0 ∷ []) (be_bytes 8 s))

-- A queue's prefix covers the keys of that queue and no other, if no name holds the byte 0.
pub starts_with-encode_key :
    (p q : Bytes) (s : ℕ)
    → contains 0 p ≡ false
    → contains 0 q ≡ false
    → (starts_with (queue_prefix p) (encode_key q s) ≡ true) ↔ (p ≡ q)
starts_with-encode_key p q s hp hq = (
  unfold encode_key queue_prefix in prefix_covers p q (be_bytes 8 s) hp hq,
  λ e. rw e (starts_with_self q s),
)
