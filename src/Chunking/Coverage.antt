-- ===== src/Chunking/Coverage.antt =====
-- What the windows of iter_text_windows (projection/chunker.py) hold of the paragraphs.
use mnemonic_os.Base.{
  ℕ, zero, suc, ◌+◌, ◌≤◌, ltb, ◌≡◌, refl, sym, ap, ◌∙◌, subst, ◌⊎◌, inl, inr, Bool, true, false,
  not, ◌&&◌, List, [], ◌∷◌, ◌++◌, arith, Bool-cases, length, Text,
}
use mnemonic_os.Chunking.Windows.{
  estimate_tokens, reverse, overlap_from, overlap_paragraphs, sum_tokens, is_nil, flush,
  windows_from,
}

module _ {A : Type 0} where
  append_nil : (xs : List A) → xs ++ [] ≡ xs
  append_nil [] = refl
  append_nil (x ∷ xs) = ap (λ t. x ∷ t) (append_nil xs)

  append_assoc : (xs ys zs : List A) → (xs ++ ys) ++ zs ≡ xs ++ (ys ++ zs)
  append_assoc [] ys zs = refl
  append_assoc (x ∷ xs) ys zs = ap (λ t. x ∷ t) (append_assoc xs ys zs)

  reverse-append : (xs ys : List A) → reverse (xs ++ ys) ≡ reverse ys ++ reverse xs
  reverse-append [] ys = sym (append_nil (reverse ys))
  reverse-append (x ∷ xs) ys =
      ap (λ t. t ++ (x ∷ [])) (reverse-append xs ys)
      ∙ append_assoc (reverse ys) (reverse xs) (x ∷ [])

  reverse-reverse : (xs : List A) → reverse (reverse xs) ≡ xs
  reverse-reverse [] = refl
  reverse-reverse (x ∷ xs) =
      reverse-append (reverse xs) (x ∷ []) ∙ ap (λ t. x ∷ t) (reverse-reverse xs)

  length-reverse : (xs : List A) → length (reverse xs) ≡ length xs
  length-reverse [] = refl
  length-reverse (x ∷ xs) = length-snoc (reverse xs) ∙ ap suc (length-reverse xs)
    where
      length-snoc : (ys : List A) → length (ys ++ (x ∷ [])) ≡ suc (length ys)
      length-snoc [] = refl
      length-snoc (y ∷ ys) = ap suc (length-snoc ys)

sum_tokens-append : (xs ys : List Text) → sum_tokens (xs ++ ys) ≡ sum_tokens xs + sum_tokens ys
sum_tokens-append [] ys = omega arith
sum_tokens-append (x ∷ xs) ys = omega (arith, sum_tokens-append xs ys)

sum_tokens-reverse : (xs : List Text) → sum_tokens (reverse xs) ≡ sum_tokens xs
sum_tokens-reverse [] = refl
sum_tokens-reverse (x ∷ xs) =
    omega (arith, sum_tokens-append (reverse xs) (x ∷ []), sum_tokens-reverse xs)

-- What is selected is a beginning of what is read.
overlap_from-prefix :
    (n : ℕ) (b : Bool) (total : ℕ) (ps : List Text)
    → (rest : List Text) × (ps ≡ overlap_from n b total ps ++ rest)
unfolding overlap_from
overlap_from-prefix n b total [] = ([], refl)
overlap_from-prefix n b total (p ∷ ps) =
    elim (Bool-cases (b && ltb n (total + estimate_tokens p))) [
      | inl e ↦ (p ∷ ps, rw e)
      | inr e ↦
          let (rest, same) = overlap_from-prefix n true (total + estimate_tokens p) ps in
          (rest, rw e (ap (λ t. p ∷ t) same))
    ]

-- Beyond a first paragraph, the selection stays within the budget.
overlap_from-le :
    (n total : ℕ) (ps : List Text)
    → (overlap_from n true total ps ≡ []) ⊎ (total + sum_tokens (overlap_from n true total ps) ≤ n)
unfolding overlap_from
overlap_from-le n total [] = inl refl
overlap_from-le n total (p ∷ ps) = elim (Bool-cases (ltb n (total + estimate_tokens p))) [
  | inl e ↦ inl (rw e)
  | inr e ↦ elim (overlap_from-le n (total + estimate_tokens p) ps) [
    | inl none_left ↦ inr (rw e (rw none_left (omega_fits e)))
    | inr within ↦ inr (rw e (omega (arith, within)))
  ]
]
  where
    omega_fits : ltb n (total + estimate_tokens p) ≡ false → total + (estimate_tokens p + 0) ≤ n
    omega_fits e = ground (arith, e)

-- The overlap is the end of the window: it is one paragraph at most, or its tokens are within the
-- overlap that is asked for.
pub overlap_paragraphs-suffix :
    (paragraphs : List Text) (n : ℕ)
    → ((front : List Text) × (paragraphs ≡ front ++ overlap_paragraphs paragraphs n))
      × ((length (overlap_paragraphs paragraphs n) ≤ 1)
          ⊎ (sum_tokens (overlap_paragraphs paragraphs n) ≤ n))
unfolding overlap_paragraphs
overlap_paragraphs-suffix paragraphs zero =
    ((paragraphs, sym (append_nil paragraphs)), inl (omega arith))
overlap_paragraphs-suffix paragraphs (suc n) =
    let backwards = reverse paragraphs in
    let (rest, same) = overlap_from-prefix (suc n) false 0 backwards in
    let selected = overlap_from (suc n) false 0 backwards in
    (
      (
        reverse rest,
        sym (reverse-reverse paragraphs) ∙ ap reverse same ∙ reverse-append selected rest,
      ),
      elim (first_fits backwards) [
        | inl few ↦ inl (omega (arith, length-reverse selected, few))
        | inr within ↦ inr (omega (arith, sum_tokens-reverse selected, within))
      ],
    )
  where
    first_fits :
        (ps : List Text)
        → (length (overlap_from (suc n) false 0 ps) ≤ 1)
          ⊎ (sum_tokens (overlap_from (suc n) false 0 ps) ≤ suc n)
    first_fits [] = inl (omega arith)
    first_fits (p ∷ ps) = elim (overlap_from-le (suc n) (0 + estimate_tokens p) ps) [
      | inl none_left ↦ inl (rw none_left (omega arith))
      | inr within ↦ inr (omega (arith, within))
    ]

-- The windows take the paragraphs in turn: each is the overlap `base` of the window before it and
-- then at least one paragraph that no window before it has.
pub Covers : ℕ → List Text → List (List Text) → List Text → Type 0
Covers n base [] ps = ps ≡ []
Covers n base (w ∷ ws) ps =
    (fresh : List Text) × (later : List Text) × (w ≡ base ++ fresh)
    × (ps ≡ fresh ++ later)
    × (is_nil fresh ≡ false)
    × Covers n (overlap_paragraphs w n) ws later

filled_fresh :
    (base fresh : List Text)
    → (is_nil fresh ≡ true → base ≡ [])
    → is_nil (base ++ fresh) ≡ false
    → is_nil fresh ≡ false
filled_fresh base [] h filled = absurd (empty base (h refl) filled)
  where
    empty : (b : List Text) → b ≡ [] → is_nil (b ++ []) ≡ false → ⊥
    empty [] e f = cc
    empty (x ∷ xs) e f = cc
filled_fresh base (x ∷ xs) h filled = refl

filled_snoc : (xs : List Text) (p : Text) → is_nil (xs ++ (p ∷ [])) ≡ false
filled_snoc [] p = refl
filled_snoc (x ∷ xs) p = refl

flush-filled : (w : List Text) → is_nil w ≡ false → flush w ≡ w ∷ []
flush-filled [] h = cc
flush-filled (x ∷ xs) h = refl

filled_append : (base fresh : List Text) → is_nil fresh ≡ false → is_nil (base ++ fresh) ≡ false
filled_append [] fresh h = h
filled_append (b ∷ base) fresh h = refl

and_left : (a b : Bool) → (not a && b) ≡ true → a ≡ false
and_left true b h = cc
and_left false b h = refl

flush-Covers :
    (n : ℕ) (base fresh : List Text)
    → (is_nil fresh ≡ true → base ≡ [])
    → Covers n base (flush (base ++ fresh)) (fresh ++ [])
unfolding Covers
flush-Covers n base [] h = rw (h refl) refl
flush-Covers n base (f ∷ fs) h =
    rw (flush-filled (base ++ (f ∷ fs)) (filled_append base (f ∷ fs) refl))
      (f ∷ fs, [], refl, refl, refl, refl)

windows_from-Covers :
    (slack n tokens : ℕ) (base fresh ps : List Text)
    → (is_nil fresh ≡ true → base ≡ [])
    → Covers n base (windows_from slack n (base ++ fresh) tokens ps) (fresh ++ ps)
unfolding windows_from Covers
windows_from-Covers slack n tokens base fresh [] h = flush-Covers n base fresh h
windows_from-Covers slack n tokens base fresh (p ∷ ps) h =
    let w = base ++ fresh in
    let more = tokens + estimate_tokens p in
    elim (Bool-cases (not (is_nil w) && ltb slack more)) [
      | inl e ↦
          let overlap = overlap_paragraphs w n in
          rw e (
            fresh,
            p ∷ ps,
            refl,
            refl,
            filled_fresh base fresh h (and_left (is_nil w) (ltb slack more) e),
            windows_from-Covers slack n (sum_tokens overlap + estimate_tokens p) overlap (p ∷ []) ps
                (λ none. absurd cc),
          )
      | inr e ↦
          let later =
            windows_from-Covers slack n more base (fresh ++ (p ∷ [])) ps
              (λ none. absurd (clash (fresh ++ (p ∷ [])) none (filled_snoc fresh p))) in
          rw e (
            subst (λ v. Covers n base (windows_from slack n v more ps) (fresh ++ (p ∷ ps)))
              (sym (append_assoc base fresh (p ∷ [])))
              (subst (Covers n base (windows_from slack n (base ++ (fresh ++ (p ∷ []))) more ps))
                (append_assoc fresh (p ∷ []) ps) later))
    ]
  where
    clash : (xs : List Text) → is_nil xs ≡ true → is_nil xs ≡ false → ⊥
    clash xs t f = cc

-- The windows of a text take its paragraphs in their order and leave none out: each window is the
-- overlap of the window before it, as `_overlap_paragraphs` gives it, and then one or more of the
-- paragraphs that follow; the first has no overlap, and after the last no paragraph is left.
pub windows_from-all :
    (slack token_overlap : ℕ) (paragraphs : List Text)
    → Covers token_overlap [] (windows_from slack token_overlap [] 0 paragraphs) paragraphs
windows_from-all slack token_overlap paragraphs =
    windows_from-Covers slack token_overlap 0 [] [] paragraphs (λ none. refl)
