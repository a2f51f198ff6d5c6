-- ===== src/Dash.antt =====
-- `DashMap<String, A>`, as the list of its entries in the order in which its iterators give them.
use rocksqueue.Base.{◌≡◌, refl, Option, none, some, List, [], ◌∷◌, if◌then◌else◌, arith}
use rocksqueue.Bytes.{Bytes, beq}
use rocksqueue.Bytes.Order.{beq_iff}

abbrev pub Dash {ℓ} : Type ℓ → Type ℓ
Dash A = List (Bytes × A)

module _ {ℓ} {A : Type ℓ} where
  unfoldable pub get : Bytes → Dash A → Option A
  get k [] = none
  get k ((j, a) ∷ m) = if beq j k then some a else get k m

  unfoldable pub insert : Bytes → A → Dash A → Dash A
  insert k a [] = (k, a) ∷ []
  insert k a ((j, b) ∷ m) = let rest = insert k a m in if beq j k then (k, a) ∷ m else (j, b) ∷ rest

  unfoldable pub remove : Bytes → Dash A → Dash A
  remove k [] = []
  remove k ((j, b) ∷ m) = let rest = remove k m in if beq j k then rest else (j, b) ∷ rest

  -- `if let Some(mut a) = m.get_mut(k) { *a = f(a) }`
  unfoldable pub alter : Bytes → (A → A) → Dash A → Dash A
  alter k f [] = []
  alter k f ((j, b) ∷ m) = let rest = alter k f m in if beq j k then (j, f b) ∷ m else (j, b) ∷ rest

  pub get-insert :
      (k j : Bytes) (a : A) (m : Dash A)
      → get j (insert k a m) ≡ (if beq k j then some a else get j m)
  unfolding get insert
  get-insert k j a [] = refl
  get-insert k j a ((i, b) ∷ m) =
      ground (arith, get-insert k j a m, beq_iff i k, beq_iff i j, beq_iff k j)

  pub get-remove :
      (k j : Bytes) (m : Dash A) → get j (remove k m) ≡ (if beq k j then none else get j m)
  unfolding get remove
  get-remove k j [] = ground arith
  get-remove k j ((i, b) ∷ m) =
      ground (arith, get-remove k j m, beq_iff i k, beq_iff i j, beq_iff k j)

  pub get-alter :
      (k j : Bytes) (f : A → A) (a : A) (m : Dash A)
      → get k m ≡ some a
      → get j (alter k f m) ≡ (if beq k j then some (f a) else get j m)
  unfolding get alter
  get-alter k j f a [] h = cc h
  get-alter k j f a ((i, b) ∷ m) h =
      ground (arith, get-alter k j f a m, beq_iff i k, beq_iff i j, beq_iff k j)
