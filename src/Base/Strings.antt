-- ===== src/Base/Strings.antt =====
-- Python's `str`: strip, membership, and a number in an f-string. A string is its code points.
use Prim.Native.Nat.{ℕ, zero, suc, ◌+◌, ◌/◌, ◌%◌}
use mathlib.Core.Path.{◌≡◌, refl, ap, ◌∙◌}
use mathlib.Core.Bool.{Bool, true, false, ◌&&◌, ◌||◌}
use mathlib.Core.List.{List, [], ◌∷◌, ◌++◌}
use native.Mathlib.Omega.{arith}
use mnemonic_os.Base.Tests.{Text, text_eq, leb, ltb, ◌==◌, if◌then◌else◌, starts_with, ==_iff}
use mnemonic_os.Base.Lists.{any}

-- `str.isspace` on one character, which `strip` removes.
unfoldable pub is_space : ℕ → Bool
is_space c =
    (leb 9 c && leb c 13)
    || ((leb 28 c && leb c 32)
        || (c == 133
            || (c == 160
                || (c == 5760
                    || ((leb 8192 c && leb c 8202)
                        || (c == 8232
                            || (c == 8233 || (c == 8239 || (c == 8287 || c == 12288)))))))))

unfoldable pub strip_left : Text → Text
unfolding is_space
strip_left [] = []
strip_left (c ∷ s) = let rest = strip_left s in if is_space c then rest else c ∷ s

-- `rstrip`
unfoldable pub strip_right : Text → Text
unfolding is_space
strip_right [] = []
strip_right (c ∷ s) = elim (strip_right s) [
  | [] ↦ if is_space c then [] else c ∷ []
  | d ∷ t ↦ c ∷ d ∷ t
]

-- `s.strip()`
unfoldable pub strip : Text → Text
unfolding strip_left strip_right
strip s = strip_right (strip_left s)

-- The digits of a number; each step divides by ten, so `n` steps and one are enough.
digits : ℕ → ℕ → Text
digits zero n = []
digits (suc fuel) n =
    let rest = digits fuel (n / 10) in
    if ltb n 10 then (48 + n) ∷ [] else rest ++ ((48 + n % 10) ∷ [])

-- `str(n)`
unfoldable pub decimal : ℕ → Text
unfolding digits
decimal n = digits (suc n) n

-- `not s`
abbrev pub is_empty : Text → Bool
is_empty [] = true
is_empty (_ ∷ _) = false

-- `a or b` on strings.
abbrev pub or_text : Text → Text → Text
or_text [] b = b
or_text (c ∷ s) _ = c ∷ s

-- `s in xs`, for a list or a set of strings.
abbrev pub member : Text → List Text → Bool
member s xs = any (text_eq s) xs

-- No string stands twice in the list.
abbrev pub Distinct : List Text → Type 0
Distinct [] = Unit
Distinct (x ∷ xs) = (member x xs ≡ false) × Distinct xs

pub text_eq_refl : (s : Text) → text_eq s s ≡ true
text_eq_refl [] = refl
text_eq_refl (c ∷ s) = ground (arith, text_eq_refl s)

pub text_eq_sound : (s t : Text) → text_eq s t ≡ true → s ≡ t
text_eq_sound [] [] h = refl
text_eq_sound [] (_ ∷ _) h = cc
text_eq_sound (_ ∷ _) [] h = cc
text_eq_sound (a ∷ s) (b ∷ t) h =
    let same : a ≡ b = ground (arith, ==_iff a b) in
    let rest = text_eq_sound s t (ground arith) in ap (λ c. c ∷ s) same ∙ ap (λ r. b ∷ r) rest

pub starts_with-append : (p s : Text) → starts_with p (p ++ s) ≡ true
starts_with-append [] s = refl
starts_with-append (c ∷ p) s = ground (arith, starts_with-append p s)

pub member-append :
    (s : Text) (xs ys : List Text) → member s (xs ++ ys) ≡ (member s xs || member s ys)
member-append s [] ys = refl
member-append s (x ∷ xs) ys = ground (arith, member-append s xs ys)
