-- ===== src/Base/Results.antt =====
-- error.rs: the errors of the queue, and methods that change a state and may fail.
use Prim.Native.Nat.{ℕ}
use mathlib.Core.Path.{◌≡◌, refl, ap, ◌∙◌}
use mathlib.Core.Logic.{◌⊎◌, inl, inr}
use mathlib.Core.List.{List}

-- The payloads that come from other crates (`rocksdb::Error`, bincode's and io's errors) are a
-- number each. `still_waiting` is no error of the source: the schedule given to a waiting
-- producer ran out before its deadline.
pub data QueueError : Type 0 where
  rocks_db : ℕ → QueueError
  serialization : ℕ → QueueError
  queue_not_found : List ℕ → QueueError
  task_not_found : List ℕ → QueueError
  column_family_missing : List ℕ → QueueError
  backlog_quota_exceeded : (tenant queue : List ℕ) (current quota incoming : ℕ) → QueueError
  io : ℕ → QueueError
  still_waiting : QueueError

pub data Result {ℓ} (A : Type ℓ) : Type ℓ where
  ok : A → Result A
  err : QueueError → Result A

-- The `?` of a chain of pure calls.
abbrev pub and_then {ℓ κ} : {A : Type ℓ} {B : Type κ} → Result A → (A → Result B) → Result B
and_then (ok a) f = f a
and_then (err e) f = err e

-- What a method has done before it fails stays done, so the state comes back beside the error.
abbrev pub Exec {ℓ κ} : Type ℓ → Type κ → Type (ℓ ⊔ κ)
Exec S A = S → Result A × S

module _ {ℓ κ} {S : Type ℓ} {A : Type κ} where
  abbrev pub pure : A → Exec S A
  pure a s = (ok a, s)

  abbrev pub raise : QueueError → Exec S A
  raise e s = (err e, s)

  -- A call that only reads the state.
  abbrev pub reads : (S → Result A) → Exec S A
  reads f s = (f s, s)

abbrev pub modify {ℓ} : {S : Type ℓ} → (S → S) → Exec S (Unit {0})
modify f s = (ok tt, f s)

module _ {ℓ κ μ} {S : Type ℓ} {A : Type κ} {B : Type μ} where
  abbrev pub continue : Result A → (A → Exec S B) → Exec S B
  continue (ok a) f s = f a s
  continue (err e) f s = (err e, s)

  infixl 5 ◌>>=◌ ◌>>◌
  abbrev pub ◌>>=◌ : Exec S A → (A → Exec S B) → Exec S B
  ◌>>=◌ m f s = continue (m s).0 f (m s).1

  abbrev pub ◌>>◌ : Exec S A → Exec S B → Exec S B
  ◌>>◌ m k s = continue (m s).0 (λ _. k) (m s).1

module _ {ℓ κ μ} {S : Type ℓ} {A : Type κ} {B : Type μ} where
  -- A block whose first call succeeds goes on with its result, and one whose first call fails ends.
  pub step_ok :
      (f : A → Exec S B) {r : Result A × S} {s : S} {a : A} {q : Result B × S}
      → r ≡ (ok a, s)
      → f a s ≡ q
      → continue r.0 f r.1 ≡ q
  step_ok f e h = ap (λ p. continue p.0 f p.1) e ∙ h

  pub step_err :
      (f : A → Exec S B) {r : Result A × S} {s : S} {e : QueueError}
      → r ≡ (err e, s)
      → continue r.0 f r.1 ≡ (err e, s)
  step_err f h = ap (λ p. continue p.0 f p.1) h

pub Result-cases {ℓ} :
    {A : Type ℓ} (r : Result A) → ((a : A) × (r ≡ ok a)) ⊎ ((e : QueueError) × (r ≡ err e))
Result-cases (ok a) = inl (a, refl)
Result-cases (err e) = inr (e, refl)
