-- ===== src/Base/Sorting.antt =====
-- ORDER BY: a stable insertion sort by a Boolean order.
use mnemonic_os.Base.Tests.{if◌then◌else◌, Bool-cases}
use mathlib.Core.Logic.{inl, inr}
use mnemonic_os.Base.Lists.{All, length, select}
use mathlib.Core.Bool.{Bool, true, false, not}
use Prim.Native.Nat.{suc}
use mathlib.Core.Path.{◌≡◌, refl, ap, ◌∙◌}
use mathlib.Core.List.{List, [], ◌∷◌, ◌++◌}
use native.Mathlib.Omega.{arith}

module _ {ℓ} {A : Type ℓ} (before : A → A → Bool) where
  abbrev pub insert : A → List A → List A
  insert x [] = x ∷ []
  insert x (y ∷ ys) = let rest = insert x ys in if before x y then x ∷ y ∷ ys else y ∷ rest

  abbrev pub order_by : List A → List A
  order_by [] = []
  order_by (x ∷ xs) = insert x (order_by xs)

  pub length-insert : (x : A) (xs : List A) → length (insert x xs) ≡ suc (length xs)
  length-insert x [] = refl
  length-insert x (y ∷ ys) = ground (arith, length-insert x ys)

  pub length-order_by : (xs : List A) → length (order_by xs) ≡ length xs
  length-order_by [] = refl
  length-order_by (x ∷ xs) = length-insert x (order_by xs) ∙ ap suc (length-order_by xs)

module _ {ℓ κ} {A : Type ℓ} (before : A → A → Bool) (P : A → Type κ) where
  pub insert-All : (x : A) (xs : List A) → P x → All P xs → All P (insert before x xs)
  insert-All x [] h hs = (h, tt)
  insert-All x (y ∷ ys) h hs = elim (Bool-cases (before x y)) [
    | inl e ↦ rw e (h, hs)
    | inr e ↦ rw e (hs.0, insert-All x ys h hs.1)
  ]

  pub order_by-All : (xs : List A) → All P xs → All P (order_by before xs)
  order_by-All [] hs = tt
  order_by-All (x ∷ xs) hs = insert-All x (order_by before xs) hs.0 (order_by-All xs hs.1)

-- Two orders that agree on the elements sort alike.
module _ {ℓ κ} {A : Type ℓ} (P : A → Type κ) (b c : A → A → Bool)
    (same : (x y : A) → P x → P y → b x y ≡ c x y) where
  insert_same : (x : A) (xs : List A) → P x → All P xs → insert b x xs ≡ insert c x xs
  insert_same x [] h hs = refl
  insert_same x (y ∷ ys) h hs = rw (same x y h hs.0, insert_same x ys h hs.1)

  pub order_by_same : (xs : List A) → All P xs → order_by b xs ≡ order_by c xs
  order_by_same [] hs = refl
  order_by_same (x ∷ xs) hs =
      rw (order_by_same xs hs.1) (insert_same x (order_by c xs) hs.0 (order_by-All c P xs hs.1))

module _ {ℓ} {A : Type ℓ} (p : A → Bool) where
  pub select-All : (xs : List A) → All (λ y. p y ≡ true) (select p xs)
  select-All [] = tt
  select-All (x ∷ xs) = elim (Bool-cases (p x)) [
    | inl e ↦ rw e (e, select-All xs)
    | inr e ↦ rw e (select-All xs)
  ]

  pub select-not-All : (xs : List A) → All (λ y. p y ≡ false) (select (λ y. not (p y)) xs)
  select-not-All [] = tt
  select-not-All (x ∷ xs) = elim (Bool-cases (p x)) [
    | inl e ↦ rw e (select-not-All xs)
    | inr e ↦ rw e (e, select-not-All xs)
  ]

-- An order that puts one class wholly before the rest sorts the classes apart.
module _ {ℓ} {A : Type ℓ} (b : A → A → Bool) (p : A → Bool)
    (apart : (x y : A) → p x ≡ true → p y ≡ false → (b x y ≡ true) × (b y x ≡ false)) where
  insert_front :
      (x : A) (xs ys : List A)
      → p x ≡ true
      → All (λ y. p y ≡ false) ys
      → insert b x (xs ++ ys) ≡ insert b x xs ++ ys
  insert_front x [] [] h hs = refl
  insert_front x [] (y ∷ ys) h hs = rw ((apart x y h hs.0).0)
  insert_front x (z ∷ xs) ys h hs = elim (Bool-cases (b x z)) [
    | inl e ↦ rw e
    | inr e ↦ rw (e, insert_front x xs ys h hs)
  ]

  insert_back :
      (x : A) (xs ys : List A)
      → p x ≡ false
      → All (λ y. p y ≡ true) xs
      → insert b x (xs ++ ys) ≡ xs ++ insert b x ys
  insert_back x [] ys h hs = refl
  insert_back x (z ∷ xs) ys h hs = rw ((apart z x hs.0 h).1, insert_back x xs ys h hs.1)

  pub order_by-split :
      (xs : List A)
      → order_by b xs ≡ order_by b (select p xs) ++ order_by b (select (λ x. not (p x)) xs)
  order_by-split [] = refl
  order_by-split (x ∷ xs) = elim (Bool-cases (p x)) [
    | inl e ↦
        rw (e, order_by-split xs)
          (insert_front x (order_by b (select p xs)) (order_by b (select (λ y. not (p y)) xs)) e
            (order_by-All b (λ y. p y ≡ false) (select (λ y. not (p y)) xs) (select-not-All p xs)))
    | inr e ↦
        rw (e, order_by-split xs)
          (insert_back x (order_by b (select p xs)) (order_by b (select (λ y. not (p y)) xs)) e
            (order_by-All b (λ y. p y ≡ true) (select p xs) (select-All p xs)))
  ]
