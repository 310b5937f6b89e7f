-- ===== src/Chunking/Ngrams.antt =====
-- What cjk_ngrams and query_terms (text_processing.py) give.
use mnemonic_os.Base.{
  ℕ, zero, suc, ◌+◌, ◌-◌, ◌≤◌, ltb, ◌==◌, ◌≡◌, refl, ap, ◌∙◌, Bool, true, false, ◌||◌, List, [],
  ◌∷◌, arith, All, if-cases, append-All, length, take, Text, text_eq, member, Distinct,
}
use mnemonic_os.Chunking.Terms.{
  runs_from, terms_of_size, terms_of_run, flat_map, unseen, cjk_ngrams, TextProcessingOptions,
  token_terms, query_terms,
}

-- No string of the first list is in the second.
abbrev Outside : List Text → List Text → Type 0
Outside seen = All (λ t. member t seen ≡ false)

-- What is kept is new, and each of it once.
abbrev New : List Text → List Text → Type 0
New seen ts = Outside seen ts × Distinct ts

Outside-tail :
    (t : Text) (seen ts : List Text)
    → Outside (t ∷ seen) ts
    → Outside seen ts × (member t ts ≡ false)
Outside-tail t seen [] h = (tt, refl)
Outside-tail t seen (u ∷ us) (h, hs) =
    let (out, absent) = Outside-tail t seen us hs in
    let (other, new) = or_false (text_eq u t) (member u seen) h in
    ((new, out), rw (text_eq_sym t u ∙ other, absent))
  where
    or_false : (a b : Bool) → (a || b) ≡ false → (a ≡ false) × (b ≡ false)
    or_false false b e = (refl, e)
    or_false true b e = cc

    text_eq_sym : (a b : Text) → text_eq a b ≡ text_eq b a
    text_eq_sym [] [] = refl
    text_eq_sym [] (_ ∷ _) = refl
    text_eq_sym (_ ∷ _) [] = refl
    text_eq_sym (x ∷ a) (y ∷ b) = ground (arith, text_eq_sym a b)

unseen-New : (ts seen : List Text) → New seen (unseen seen ts)
unfolding unseen
unseen-New [] seen = (tt, tt)
unseen-New (t ∷ ts) seen =
    if-cases (New seen) (member t seen) (λ e. unseen-New ts seen)
      (λ e.
        let (outside, apart) = unseen-New ts (t ∷ seen) in
        let (out, absent) = Outside-tail t seen (unseen (t ∷ seen) ts) outside in
        ((e, out), (absent, apart)))

-- What is true of every candidate is true of every term.
module _ (P : Text → Type 0) where
  unseen-All : (ts seen : List Text) → All P ts → All P (unseen seen ts)
  unfolding unseen
  unseen-All [] seen h = tt
  unseen-All (t ∷ ts) seen (h, hs) =
      if-cases (All P) (member t seen) (λ e. unseen-All ts seen hs)
        (λ e. (h, unseen-All ts (t ∷ seen) hs))

  flat_map-All :
      (f : Text → List Text) (xs : List Text) → ((x : Text) → All P (f x)) → All P (flat_map f xs)
  flat_map-All f [] h = tt
  flat_map-All f (x ∷ xs) h = append-All P (f x) (flat_map f xs) (h x) (flat_map-All f xs h)

-- A term of a run: `n` of its characters.
abbrev Sized : ℕ → ℕ → Text → Type 0
Sized least most t = (least ≤ length t) × (length t ≤ most)

terms_of_size-Sized :
    (least most n : ℕ) (run : Text)
    → least ≤ n
    → n ≤ most
    → All (Sized least most) (terms_of_size n run)
terms_of_size-Sized least most n [] h k = tt
terms_of_size-Sized least most n (c ∷ s) h k =
    if-cases (All (Sized least most)) (ltb (length (c ∷ s)) n) (λ e. tt)
      (λ e.
        let exact = length-take_eq n (c ∷ s) (ground arith) in
        ((omega (arith, exact), omega (arith, exact)), terms_of_size-Sized least most n s h k))
  where
    length-take_eq : (m : ℕ) (xs : Text) → m ≤ length xs → length (take m xs) ≡ m
    length-take_eq zero xs e = refl
    length-take_eq (suc m) [] e = absurd (omega arith)
    length-take_eq (suc m) (x ∷ xs) e = ap suc (length-take_eq m xs (omega arith))

terms_of_run-Sized :
    (least most count n : ℕ) (run : Text)
    → least ≤ n
    → n + count ≤ most + 1
    → All (Sized least most) (terms_of_run count n run)
terms_of_run-Sized least most zero n run h k = tt
terms_of_run-Sized least most (suc count) n run h k =
    append-All _ (terms_of_size n run) (terms_of_run count (suc n) run)
      (terms_of_size-Sized least most n run h (omega arith))
      (terms_of_run-Sized least most count (suc n) run (omega arith) (omega arith))

-- The n-grams of a text are distinct, and have from `min_n` to `max_n` characters.
pub cjk_ngrams-Distinct :
    (min_n max_n : ℕ) (text : Text)
    → Distinct (cjk_ngrams min_n max_n text)
      × All (λ t. (min_n ≤ length t) × (length t ≤ max_n)) (cjk_ngrams min_n max_n text)
unfolding cjk_ngrams
cjk_ngrams-Distinct min_n max_n text =
    let terms = flat_map (terms_of_run (max_n + 1 - min_n) min_n) (runs_from [] text) in
    if-cases (λ ts. Distinct ts × All (Sized min_n max_n) ts) (min_n == 0 || ltb max_n min_n)
      (λ e. (tt, tt))
      (λ e.
        let ordered : min_n ≤ max_n = ground arith in
        (
          (unseen-New terms []).1,
          unseen-All (Sized min_n max_n) terms [] (
              flat_map-All (Sized min_n max_n) (terms_of_run (max_n + 1 - min_n) min_n)
                (runs_from [] text)
                (λ run.
                  terms_of_run-Sized min_n max_n (max_n + 1 - min_n) min_n run (omega arith)
                    (omega (arith, ordered)))),
        ))

-- The terms of a query are distinct.
pub query_terms-Distinct :
    (find_tokens : Text → List Text) (casefold : Text → Text) (stopwords : List Text)
    (opts : TextProcessingOptions) (text : Text)
    → Distinct (query_terms find_tokens casefold stopwords opts text)
unfolding query_terms
query_terms-Distinct find_tokens casefold stopwords opts text =
    (unseen-New (flat_map (token_terms casefold stopwords opts) (find_tokens text)) []).1
