-- ===== src/Run.antt =====
-- Calls that log their errors and return no result: they come back, end by a panic, or wait for a
-- lock that their own thread holds.

pub data Run {ℓ} (A : Type ℓ) : Type ℓ where
  returns : A → Run A
  panics : Run A
  blocks : Run A

-- One call after another.
abbrev pub and_run {ℓ κ} : {A : Type ℓ} {B : Type κ} → Run A → (A → Run B) → Run B
and_run (returns a) f = f a
and_run panics f = panics
and_run blocks f = blocks
