-- ===== src/Chunking/Terms.antt =====
-- text_processing.py: contains_cjk, _cjk_runs, cjk_ngrams, query_terms, prepare_fts_text. The tokens
-- of `re` and `str.casefold` are arguments.
use mnemonic_os.Base.{
  ℕ, zero, suc, ◌+◌, ◌-◌, ltb, ◌==◌, Bool, true, not, ◌&&◌, ◌||◌, List, [], ◌∷◌, ◌++◌, any, map,
  select, length, take, Text, codes, is_empty, member, strip, if◌then◌else◌,
}
use mnemonic_os.Chunking.Units.{is_cjk_char}

pub record TextProcessingOptions : Type 0 where
  pub cjk_enabled : Bool
  pub cjk_ngram_min : ℕ
  pub cjk_ngram_max : ℕ
  pub latin_min_token_chars : ℕ

abbrev pub default_options : TextProcessingOptions
default_options = record {
  cjk_enabled = true;
  cjk_ngram_min = 1;
  cjk_ngram_max = 3;
  latin_min_token_chars = 3;
}

unfoldable pub contains_cjk : Text → Bool
unfolding is_cjk_char
contains_cjk text = any is_cjk_char text

abbrev pub yield_run : Text → List Text → List Text
yield_run [] runs = runs
yield_run (c ∷ s) runs = (c ∷ s) ∷ runs

-- `_cjk_runs`, with the run that is open.
unfoldable pub runs_from : Text → Text → List Text
unfolding is_cjk_char
runs_from run [] = yield_run run []
runs_from run (c ∷ s) =
    let longer = runs_from (run ++ (c ∷ [])) s in
    let next = runs_from [] s in if is_cjk_char c then longer else yield_run run next

-- `for index in range(0, len(run) - size + 1)`, of the run left at an index.
abbrev pub terms_of_size : ℕ → Text → List Text
terms_of_size size [] = []
terms_of_size size (c ∷ s) =
    let rest = terms_of_size size s in
    if ltb (length (c ∷ s)) size then [] else take size (c ∷ s) ∷ rest

-- `for size in range(min_n, min_n + count)`
abbrev pub terms_of_run : ℕ → ℕ → Text → List Text
terms_of_run zero size run = []
terms_of_run (suc count) size run = terms_of_size size run ++ terms_of_run count (suc size) run

abbrev pub flat_map {ℓ κ} : {A : Type ℓ} {B : Type κ} → (A → List B) → List A → List B
flat_map f [] = []
flat_map f (x ∷ xs) = f x ++ flat_map f xs

-- The loop `if term in seen: continue`, `terms.append`, `seen.add`.
unfoldable pub unseen : List Text → List Text → List Text
unseen seen [] = []
unseen seen (t ∷ ts) =
    let later = unseen (t ∷ seen) ts in
    let skipped = unseen seen ts in if member t seen then skipped else t ∷ later

unfoldable pub cjk_ngrams : ℕ → ℕ → Text → List Text
unfolding unseen runs_from
cjk_ngrams min_n max_n text =
    let terms = unseen [] (flat_map (terms_of_run (max_n + 1 - min_n) min_n) (runs_from [] text)) in
    if min_n == 0 || ltb max_n min_n then [] else terms

-- What a token gives to `query_terms`.
unfoldable pub token_terms :
    (casefold : Text → Text) → List Text → TextProcessingOptions → Text → List Text
unfolding contains_cjk cjk_ngrams
token_terms casefold stopwords opts raw_token =
    let lowered = casefold raw_token in
    if opts.cjk_enabled && contains_cjk raw_token
    then cjk_ngrams opts.cjk_ngram_min opts.cjk_ngram_max raw_token
    else if ltb (length lowered) opts.latin_min_token_chars || member lowered stopwords
    then []
    else lowered ∷ []

unfoldable pub query_terms :
    (Text → List Text) → (Text → Text) → List Text → TextProcessingOptions → Text → List Text
unfolding token_terms unseen
query_terms find_tokens casefold stopwords opts text =
    unseen [] (flat_map (token_terms casefold stopwords opts) (find_tokens text))

-- `separator.join(parts)`
unfoldable pub join : Text → List Text → Text
join separator [] = []
join separator (p ∷ []) = p
join separator (p ∷ q ∷ ps) = p ++ (separator ++ join separator (q ∷ ps))

-- `[part.strip() for part in parts if part and part.strip()]`
unfoldable pub originals : List Text → List Text
unfolding strip
originals parts = select (λ p. not (is_empty p)) (map strip parts)

unfoldable pub prepare_fts_text : TextProcessingOptions → List Text → Text
unfolding originals join cjk_ngrams unseen
prepare_fts_text opts parts =
    let kept = originals parts in
    let generated = unseen [] (flat_map (cjk_ngrams opts.cjk_ngram_min opts.cjk_ngram_max) kept) in
    if opts.cjk_enabled then strip (join (codes " ") (kept ++ generated)) else join (codes " ") kept
