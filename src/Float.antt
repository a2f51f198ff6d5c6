-- ===== src/Float.antt =====
-- The operations on `f64` that the program uses. A model of IEEE 754 is left open: the theorems
-- hold whatever these operations return.
use rocksqueue.Base.{ℕ, Bool, Option, Ordering}

pub record F64 : Type 1 where
  pub Num : Type 0
  -- `n as f64`, and the constants, which are ratios of small numbers
  pub of_nat : ℕ → Num
  pub add : Num → Num → Num
  pub sub : Num → Num → Num
  pub mul : Num → Num → Num
  pub div : Num → Num → Num
  pub neg_infinity : Num
  -- `f64::MAX`
  pub max_value : Num
  pub neg : Num → Num
  pub powf : (base exponent : Num) → Num
  pub sqrt : Num → Num
  pub min : Num → Num → Num
  pub max : Num → Num → Num
  -- `a > b`, which is false on a NaN
  pub gt : Num → Num → Bool
  pub partial_cmp : Num → Num → Option Ordering
  -- `x.floor() as usize` and `x as u64`
  pub floor : Num → ℕ
  pub truncate : Num → ℕ
  -- `Duration::as_secs_f64` of a number of nanoseconds
  pub secs : ℕ → Num
