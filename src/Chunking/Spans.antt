-- ===== src/Chunking/Spans.antt =====
-- What the spans of _unit_spans and the groups of chunk_text_by_units (text_processing.py) hold.
use mnemonic_os.Base.{
  ℕ, zero, suc, ◌+◌, ◌-◌, ◌≤◌, ◌<◌, leb, ◌≡◌, refl, sym, ap, ◌∙◌, inl, inr, Bool, true, false, not,
  Option, some, List, [], ◌∷◌, ◌++◌, arith, All, Bool-cases, if-cases, length, take_all, ltb, take,
  select, Text, is_space,
}
use mnemonic_os.Chunking.Units.{
  drop, is_cjk_char, Span, word_length, prepend_span, spans_from, unit_spans, slice, groups_from,
  step_of, span_groups,
}
use mnemonic_os.Chunking.Terms.{flat_map}

module _ {A : Type 0} where
  drop_none : (n : ℕ) → drop {A = A} n [] ≡ []
  drop_none zero = refl
  drop_none (suc n) = refl

  drop-drop : (m n : ℕ) (xs : List A) → drop m (drop n xs) ≡ drop (n + m) xs
  drop-drop m zero xs = let same : m ≡ 0 + m = omega arith in ap (λ k. drop k xs) same
  drop-drop m (suc n) [] = drop_none m ∙ sym (drop_none (suc n + m))
  drop-drop m (suc n) (x ∷ xs) =
      let same : suc (n + m) ≡ suc n + m = omega arith in
      drop-drop m n xs ∙ ap (λ k. drop k (x ∷ xs)) same

  length-drop : (n : ℕ) (xs : List A) → length (drop n xs) ≡ length xs - n
  length-drop zero xs = omega arith
  length-drop (suc n) [] = omega arith
  length-drop (suc n) (x ∷ xs) = omega (arith, length-drop n xs)

  take-drop : (n : ℕ) (xs : List A) → take n xs ++ drop n xs ≡ xs
  take-drop zero xs = refl
  take-drop (suc n) [] = refl
  take-drop (suc n) (x ∷ xs) = ap (λ t. x ∷ t) (take-drop n xs)

  take-take : (m n : ℕ) (xs : List A) → m ≤ n → take m (take n xs) ≡ take m xs
  take-take zero n xs h = refl
  take-take (suc m) zero xs h = absurd (omega arith)
  take-take (suc m) (suc n) [] h = refl
  take-take (suc m) (suc n) (x ∷ xs) h = ap (λ t. x ∷ t) (take-take m n xs (omega arith))

  length-take_le : (n : ℕ) (xs : List A) → length (take n xs) ≤ n
  length-take_le zero xs = omega arith
  length-take_le (suc n) [] = omega arith
  length-take_le (suc n) (x ∷ xs) = omega (arith, length-take_le n xs)

abbrev pub not_space : ℕ → Bool
not_space c = not (is_space c)

-- The texts of the spans, of a text that starts at an index.
abbrev texts : ℕ → Text → List Span → Text
texts i text [] = []
texts i text (s ∷ spans) = take (s.1 - s.0) (drop (s.0 - i) text) ++ texts i text spans

-- Spans that start at an index or after it, none of them empty.
abbrev From : ℕ → List Span → Type 0
From i = All (λ s. (i ≤ s.0) × (s.0 < s.1))

From-le : (i j : ℕ) (spans : List Span) → i ≤ j → From j spans → From i spans
From-le i j [] h spans' = tt
From-le i j (s ∷ spans) h (k, ks) = ((omega (arith, k), k.1), From-le i j spans h ks)

texts_shift :
    (i n : ℕ) (text : Text) (spans : List Span)
    → From (i + n) spans
    → texts i text spans ≡ texts (i + n) (drop n text) spans
texts_shift i n text [] h = refl
texts_shift i n text (s ∷ spans) (k, ks) =
    let same : n + (s.0 - (i + n)) ≡ s.0 - i = omega (arith, k) in
    let moved = drop-drop (s.0 - (i + n)) n text ∙ ap (λ m. drop m text) same in
    ap (λ t. take (s.1 - s.0) t ++ texts i text spans) (sym moved)
    ∙ ap (λ t. take (s.1 - s.0) (drop (s.0 - (i + n)) (drop n text)) ++ t)
        (texts_shift i n text spans ks)

select-other :
    (c : ℕ) (s : Text) → is_space c ≡ false → select not_space (c ∷ s) ≡ c ∷ select not_space s
select-other c s e = rw e

select-space :
    (c : ℕ) (s : Text) → is_space c ≡ true → select not_space (c ∷ s) ≡ select not_space s
select-space c s e = rw e

-- A word has no space in it.
word_length-select :
    (text : Text)
    → select not_space text
      ≡ take (word_length text) text ++ select not_space (drop (word_length text) text)
unfolding word_length
word_length-select [] = refl
word_length-select (c ∷ s) = elim (Bool-cases (is_space c)) [
  | inl e ↦ none_taken (rw e refl)
  | inr e ↦ elim (Bool-cases (is_cjk_char c)) [
    | inl f ↦ none_taken (rw (e, f) refl)
    | inr f ↦
        let one_more : word_length (c ∷ s) ≡ suc (word_length s) = rw (e, f) refl in
        select-other c s e
        ∙ ap (λ t. c ∷ t) (word_length-select s)
        ∙ ap (λ n. take n (c ∷ s) ++ select not_space (drop n (c ∷ s))) (sym one_more)
  ]
]
  where
    none_taken :
        word_length (c ∷ s) ≡ 0
        → select not_space (c ∷ s)
          ≡ take (word_length (c ∷ s)) (c ∷ s)
            ++ select not_space (drop (word_length (c ∷ s)) (c ∷ s))
    none_taken e = ap (λ n. take n (c ∷ s) ++ select not_space (drop n (c ∷ s))) (sym e)

word_length-some :
    (c : ℕ) (s : Text) → is_space c ≡ false → is_cjk_char c ≡ false → 1 ≤ word_length (c ∷ s)
unfolding word_length
word_length-some c s e f = rw (e, f) (omega arith)

-- The loop gives spans, whose texts are what is left of the text without its spaces.
abbrev Spans : ℕ → Text → Option (List Span) → Type 0
Spans i text result =
    (spans : List Span) × (result ≡ some spans)
    × From i spans
    × (texts i text spans ≡ select not_space text)

Spans-prepend :
    (i n : ℕ) (text : Text) (rest : Option (List Span))
    → 1 ≤ n
    → select not_space text ≡ take n text ++ select not_space (drop n text)
    → Spans (i + n) (drop n text) rest
    → Spans i text (prepend_span (i, i + n) rest)
Spans-prepend i n text rest h split (spans, done, starts, same) =
    let size : (i + n) - i ≡ n = omega arith in
    let here : i - i ≡ 0 = omega arith in
    (
      (i, i + n) ∷ spans,
      rw done,
      ((omega arith, omega arith), From-le i (i + n) spans (omega arith) starts),
      ap (λ k. take k (drop (i - i) text) ++ texts i text spans) size
          ∙ ap (λ k. take n (drop k text) ++ texts i text spans) here
          ∙ ap (λ t. take n text ++ t) (texts_shift i n text spans starts ∙ same)
          ∙ sym split,
    )

spans_from-Spans :
    (fuel i : ℕ) (text : Text) → length text ≤ fuel → Spans i text (spans_from fuel i text)
unfolding spans_from
spans_from-Spans fuel i [] h = ([], refl, tt, refl)
spans_from-Spans zero i (c ∷ s) h = absurd (omega arith)
spans_from-Spans (suc fuel) i (c ∷ s) h =
    if-cases (Spans i (c ∷ s)) (is_space c)
      (λ e.
        let (spans, done, starts, same) = spans_from-Spans fuel (i + 1) s (omega arith) in
        (
          spans,
          done,
          From-le i (i + 1) spans (omega arith) starts,
          texts_shift i 1 (c ∷ s) spans starts ∙ same ∙ sym (select-space c s e),
        ))
      (λ e.
        if-cases (Spans i (c ∷ s)) (is_cjk_char c)
          (λ f.
            Spans-prepend i 1 (c ∷ s) _ (omega arith) (select-other c s e)
              (spans_from-Spans fuel (i + 1) s (omega arith)))
          (λ f.
            let n = word_length (c ∷ s) in
            let some_word = word_length-some c s e f in
            let left : length (drop n (c ∷ s)) ≤ fuel =
              omega (arith, length-drop n (c ∷ s), some_word) in
            Spans-prepend i n (c ∷ s) _ some_word (word_length-select (c ∷ s))
              (spans_from-Spans fuel (i + n) (drop n (c ∷ s)) left)))

texts_slices :
    (text : Text) (spans : List Span)
    → flat_map (λ (a, b). slice a b text) spans ≡ texts 0 text spans
texts_slices text [] = refl
texts_slices text ((a, b) ∷ spans) =
    let same : a ≡ a - 0 = omega arith in
    ap (λ k. take (b - a) (drop k text) ++ flat_map (λ (c, d). slice c d text) spans) same
    ∙ ap (λ t. take (b - a) (drop (a - 0) text) ++ t) (texts_slices text spans)

-- The loop of `_unit_spans` ends on every text. Its spans are not empty, and their texts, one after
-- the other, are the text without its spaces: no other character is lost or taken twice.
pub unit_spans-total :
    (text : Text)
    → (spans : List Span) × (unit_spans text ≡ some spans)
      × All (λ (a, b). a < b) spans
      × (flat_map (λ (a, b). slice a b text) spans ≡ select not_space text)
unfolding unit_spans
unit_spans-total text =
    let (spans, done, starts, same) = spans_from-Spans (length text) 0 text (omega arith) in
    (spans, done, some_text spans starts, texts_slices text spans ∙ same)
  where
    some_text : (spans : List Span) → From 0 spans → All (λ (a, b). a < b) spans
    some_text [] h = tt
    some_text (s ∷ spans) (k, ks) = (k.1, some_text spans ks)

-- The first `step` spans of each group but the last, and all of the last.
abbrev pub rejoin : ℕ → List (List Span) → List Span
rejoin step [] = []
rejoin step (g ∷ []) = g
rejoin step (g ∷ h ∷ groups) = take step g ++ rejoin step (h ∷ groups)

-- Groups of at most `chunk_units` spans that are the spans again without their overlaps.
abbrev Groups : ℕ → ℕ → List Span → Option (List (List Span)) → Type 0
Groups chunk_units step spans result =
    (groups : List (List Span)) × (result ≡ some groups)
    × (rejoin step groups ≡ spans)
    × All (λ g. length g ≤ chunk_units) groups

rejoin-first :
    (chunk_units step : ℕ) (spans : List Span) (groups : List (List Span))
    → step ≤ chunk_units
    → ltb chunk_units (length spans) ≡ true
    → rejoin step groups ≡ drop step spans
    → rejoin step (take chunk_units spans ∷ groups) ≡ spans
rejoin-first chunk_units step spans [] within longer h =
    let empty : length (drop step spans) ≡ 0 = ap length (sym h) in
    let beyond : chunk_units < length spans = ground (arith, longer) in
    absurd (omega (arith, empty, beyond, length-drop step spans))
rejoin-first chunk_units step spans (g ∷ groups) within longer h =
    ap (λ t. t ++ rejoin step (g ∷ groups)) (take-take step chunk_units spans within)
    ∙ ap (λ t. take step spans ++ t) h
    ∙ take-drop step spans

groups_from-Groups :
    (fuel chunk_units step : ℕ) (spans : List Span)
    → 1 ≤ step
    → step ≤ chunk_units
    → length spans ≤ fuel
    → Groups chunk_units step spans (groups_from fuel chunk_units step spans)
unfolding groups_from
groups_from-Groups fuel chunk_units step [] some_step within h = ([], refl, refl, tt)
groups_from-Groups zero chunk_units step (s ∷ spans) some_step within h = absurd (omega arith)
groups_from-Groups (suc fuel) chunk_units step (s ∷ spans) some_step within h =
    let all = s ∷ spans in
    let sized = length-take_le chunk_units all in
    if-cases (Groups chunk_units step all) (leb (length all) chunk_units)
      (λ e. (take chunk_units all ∷ [], refl, take_all chunk_units all (ground arith), (sized, tt)))
      (λ e.
        let left : length (drop step all) ≤ fuel = omega (arith, length-drop step all) in
        let (groups, done, joined, smaller) =
          groups_from-Groups fuel chunk_units step (drop step all) some_step within left in
        (
          take chunk_units all ∷ groups,
          rw done,
          rejoin-first chunk_units step all groups within (ground arith) joined,
          (sized, smaller),
        ))

-- The loop of `chunk_text_by_units` ends on every list of spans, for chunks of at least one unit:
-- each group is of at most `chunk_units` spans, and without what each shares with the next, the
-- groups are the spans, in their order and none left out.
pub span_groups-total :
    (chunk_units overlap_units : ℕ) (spans : List Span)
    → 1 ≤ chunk_units
    → (groups : List (List Span)) × (span_groups chunk_units overlap_units spans ≡ some groups)
      × (rejoin (step_of chunk_units overlap_units) groups ≡ spans)
      × All (λ g. length g ≤ chunk_units) groups
unfolding span_groups
span_groups-total chunk_units overlap_units spans some_chunk =
    groups_from-Groups (length spans) chunk_units (step_of chunk_units overlap_units) spans
      (omega arith) (omega arith) (omega arith)
