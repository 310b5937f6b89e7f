-- ===== src/Identity/Overlap.antt =====
-- artifact_identity.py: jaccard and prefix_suffix_overlap_ratio. A score is a fraction of two counts;
-- scores are compared exactly, where the source compares the rounded quotients.
use mnemonic_os.Base.{
  ℕ, suc, ◌+◌, ◌*◌, ltb, leb, ◌==◌, min, max, Bool, true, false, not, ◌&&◌, List, [], ◌∷◌, select,
  length, Text, text_eq, member, if◌then◌else◌,
}
use mnemonic_os.Chunking.Windows.{reverse}

pub record Ratio : Type 0 where
  pub part : ℕ
  pub whole : ℕ

abbrev pub ratio : ℕ → ℕ → Ratio
ratio a b = record { part = a; whole = b }

-- `a > b`
abbrev pub above : Ratio → Ratio → Bool
above a b = ltb (b.part * a.whole) (a.part * b.whole)

-- `r >= n / d`
abbrev pub at_least : ℕ → ℕ → Ratio → Bool
at_least n d r = leb (n * r.whole) (r.part * d)

unfoldable pub jaccard : List Text → List Text → Ratio
jaccard [] [] = ratio 1 1
jaccard [] (_ ∷ _) = ratio 0 1
jaccard (_ ∷ _) [] = ratio 0 1
jaccard (x ∷ xs) (y ∷ ys) =
    let left = x ∷ xs in
    let right = y ∷ ys in
    ratio (length (select (λ t. member t right) left))
      (length left + length (select (λ t. not (member t left)) right))

-- How many tokens agree from the start.
unfoldable pub common_prefix : List Text → List Text → ℕ
common_prefix [] _ = 0
common_prefix (_ ∷ _) [] = 0
common_prefix (a ∷ as_rest) (b ∷ bs) =
    let rest = common_prefix as_rest bs in if text_eq a b then suc rest else 0

abbrev is_nil : List Text → Bool
is_nil [] = true
is_nil (_ ∷ _) = false

-- `prefix_suffix_overlap_ratio`, of the tokens of both texts.
unfoldable pub prefix_suffix_overlap_ratio : List Text → List Text → Ratio × Bool
unfolding common_prefix
prefix_suffix_overlap_ratio left right =
    let shorter = min (length left) (length right) in
    let prefix = common_prefix left right in
    let suffix = common_prefix (reverse left) (reverse right) in
    let r = ratio (min (max prefix suffix) shorter) (max 1 shorter) in
    let delta = not (length left == length right) && at_least 6 10 r in
    if is_nil left
    then (ratio 0 1, false)
    else if is_nil right
    then (ratio 0 1, false)
    else (r, delta)
