-- ===== src/Base/Lists.antt =====
-- Lists filtered by a Boolean test and measured by native numbers.
use Prim.Native.Nat.{ℕ, zero, suc, ◌+◌, ◌≤◌}
use mathlib.Core.Path.{◌≡◌, refl, ap}
use mathlib.Core.Bool.{Bool, true, false, ◌&&◌, ◌||◌}
use mathlib.Core.List.{List, [], ◌∷◌, ◌++◌, map}
use mathlib.Core.Option.{Option, none, some}
use native.Mathlib.Omega.{arith}
use mnemonic_os.Base.Tests.{if◌then◌else◌, ◌==◌}

module _ {ℓ} {A : Type ℓ} where
  abbrev pub length : List A → ℕ
  length [] = 0
  length (x ∷ xs) = suc (length xs)

  abbrev pub take : ℕ → List A → List A
  take zero xs = []
  take (suc n) [] = []
  take (suc n) (x ∷ xs) = x ∷ take n xs

  -- SQL's WHERE, and a Python comprehension with `if`.
  abbrev pub select : (A → Bool) → List A → List A
  select p [] = []
  select p (x ∷ xs) = let rest = select p xs in if p x then x ∷ rest else rest

  -- SQL's COUNT(*) under a WHERE.
  abbrev pub count_where : (A → Bool) → List A → ℕ
  count_where p [] = 0
  count_where p (x ∷ xs) = let rest = count_where p xs in if p x then suc rest else rest

  -- SQL's UPDATE .. SET f WHERE p.
  abbrev pub update_where : (A → Bool) → (A → A) → List A → List A
  update_where p f [] = []
  update_where p f (x ∷ xs) = (if p x then f x else x) ∷ update_where p f xs

  -- `fetchone` under a WHERE.
  abbrev pub find_where : (A → Bool) → List A → Option A
  find_where p [] = none
  find_where p (x ∷ xs) = let rest = find_where p xs in if p x then some x else rest

  abbrev pub any : (A → Bool) → List A → Bool
  any p [] = false
  any p (x ∷ xs) = p x || any p xs

  abbrev pub All {κ} : (A → Type κ) → List A → Type κ
  All P [] = Unit
  All P (x ∷ xs) = P x × All P xs

  pub append-All {κ} : (P : A → Type κ) (xs ys : List A) → All P xs → All P ys → All P (xs ++ ys)
  append-All P [] ys h k = k
  append-All P (x ∷ xs) ys h k = (h.0, append-All P xs ys h.1 k)

  pub select_every : (p : A → Bool) (xs : List A) → All (λ x. p x ≡ true) xs → select p xs ≡ xs
  select_every p [] h = refl
  select_every p (x ∷ xs) h = rw h.0 (ap (λ t. x ∷ t) (select_every p xs h.1))

  pub select-append :
      (p : A → Bool) (xs ys : List A) → select p (xs ++ ys) ≡ select p xs ++ select p ys
  select-append p [] ys = refl
  select-append p (x ∷ xs) ys = ground (arith, select-append p xs ys)

  pub length-append : (xs ys : List A) → length (xs ++ ys) ≡ length xs + length ys
  length-append [] ys = omega arith
  length-append (x ∷ xs) ys = omega (arith, length-append xs ys)

  pub length-select : (p : A → Bool) (xs : List A) → length (select p xs) ≡ count_where p xs
  length-select p [] = refl
  length-select p (x ∷ xs) = ground (arith, length-select p xs)

  pub length-update_where :
      (p : A → Bool) (f : A → A) (xs : List A) → length (update_where p f xs) ≡ length xs
  length-update_where p f [] = refl
  length-update_where p f (x ∷ xs) = ap suc (length-update_where p f xs)

module _ {ℓ} {A : Type ℓ} (p q : A → Bool) where
  pub count_where-le :
      ((x : A) → p x ≡ true → q x ≡ true) → (xs : List A) → count_where p xs ≤ count_where q xs
  count_where-le h [] = omega arith
  count_where-le h (x ∷ xs) = ground (arith, h x, count_where-le h xs)

  -- A test that holds nowhere before an update, and at no updated element, counts nothing after it.
  pub count_where-update_where_zero :
      (f : A → A)
      → ((x : A) → p x ≡ false → q x ≡ true → p (f x) ≡ false)
      → (xs : List A) → count_where p xs ≡ 0
      → count_where p (update_where q f xs) ≡ 0
  count_where-update_where_zero f h [] e = refl
  count_where-update_where_zero f h (x ∷ xs) e =
      ground (arith, h x, count_where-update_where_zero f h xs)

  pub count_where-update_where :
      (f : A → A)
      → ((x : A) → q x ≡ true → p (f x) ≡ p x)
      → (xs : List A) → count_where p (update_where q f xs) ≡ count_where p xs
  count_where-update_where f h [] = refl
  count_where-update_where f h (x ∷ xs) = ground (arith, h x, count_where-update_where f h xs)

  pub select-select : (xs : List A) → select q (select p xs) ≡ select (λ x. p x && q x) xs
  select-select [] = refl
  select-select (x ∷ xs) = ground (arith, select-select xs)

module _ {ℓ} {A : Type ℓ} where
  pub take_all : (n : ℕ) (xs : List A) → length xs ≤ n → take n xs ≡ xs
  take_all zero [] h = refl
  take_all zero (x ∷ xs) h = absurd (omega arith)
  take_all (suc n) [] h = refl
  take_all (suc n) (x ∷ xs) h = ap (λ t. x ∷ t) (take_all n xs (omega arith))

  pub take-map {κ} :
      {B : Type κ} (f : A → B) (n : ℕ) (xs : List A) → map f (take n xs) ≡ take n (map f xs)
  take-map f zero xs = refl
  take-map f (suc n) [] = refl
  take-map f (suc n) (x ∷ xs) = ap (λ t. f x ∷ t) (take-map f n xs)

  pub count_where-le_length : (p : A → Bool) (xs : List A) → count_where p xs ≤ length xs
  count_where-le_length p [] = omega arith
  count_where-le_length p (x ∷ xs) = ground (arith, count_where-le_length p xs)

abbrev pub elem : ℕ → List ℕ → Bool
elem a [] = false
elem a (x ∷ xs) = a == x || elem a xs
