-- ===== src/Chunking/Windows.antt =====
-- projection/chunker.py: estimate_tokens, _overlap_paragraphs, iter_text_windows. The markers of a
-- window are found by projection/markers.py with `re`, which is not read here.
use mnemonic_os.Base.{
  ℕ, zero, suc, ◌+◌, ◌*◌, ◌/◌, ltb, ◌==◌, Bool, true, false, not, ◌&&◌, List, [], ◌∷◌, ◌++◌, select,
  Text, codes, is_space, is_empty, strip, decimal, if◌then◌else◌,
}
use mnemonic_os.Chunking.Terms.{join}

-- `len(text.split())`: the places where a word starts, after a space or not.
words_from : Bool → Text → ℕ
unfolding is_space
words_from in_word [] = 0
words_from in_word (c ∷ s) =
    let inside = words_from true s in
    let outside = words_from false s in
    if is_space c then outside else if in_word then inside else suc inside

unfoldable pub estimate_tokens : Text → ℕ
unfolding words_from
estimate_tokens text = words_from false text

-- `text.split("\n\n")`, with the part that is open.
unfoldable pub split_paragraphs : Text → Text → List Text
split_paragraphs part [] = part ∷ []
split_paragraphs part (c ∷ []) = (part ++ (c ∷ [])) ∷ []
split_paragraphs part (c ∷ d ∷ s) =
    let next = split_paragraphs [] s in
    let longer = split_paragraphs (part ++ (c ∷ [])) (d ∷ s) in
    if c == 10 && d == 10 then part ∷ next else longer

unfoldable pub paragraphs_of : Text → List Text
unfolding split_paragraphs strip
paragraphs_of text = select (λ p. not (is_empty (strip p))) (split_paragraphs [] text)

abbrev pub reverse : {A : Type 0} → List A → List A
reverse [] = []
reverse (x ∷ xs) = reverse xs ++ (x ∷ [])

-- The loop of `_overlap_paragraphs` over the reversed paragraphs: what it selects, in that order.
unfoldable pub overlap_from : ℕ → Bool → ℕ → List Text → List Text
unfolding estimate_tokens
overlap_from token_overlap some_selected total [] = []
overlap_from token_overlap some_selected total (p ∷ ps) =
    let tokens = estimate_tokens p in
    let rest = overlap_from token_overlap true (total + tokens) ps in
    if some_selected && ltb token_overlap (total + tokens) then [] else p ∷ rest

unfoldable pub overlap_paragraphs : List Text → ℕ → List Text
unfolding overlap_from
overlap_paragraphs paragraphs zero = []
overlap_paragraphs paragraphs (suc n) = reverse (overlap_from (suc n) false 0 (reverse paragraphs))

abbrev pub sum_tokens : List Text → ℕ
sum_tokens [] = 0
sum_tokens (p ∷ ps) = estimate_tokens p + sum_tokens ps

-- `int(token_target * 1.2)`: the product of floats is rounded to the exact value where that is whole.
abbrev pub slack_of : ℕ → ℕ
slack_of token_target = token_target * 6 / 5

abbrev pub is_nil : {A : Type 0} → List A → Bool
is_nil [] = true
is_nil (_ ∷ _) = false

-- The last `yield`, and the loop of `iter_text_windows` on the parts of its window and their tokens: the parts of each
-- window that it emits.
abbrev pub flush : List Text → List (List Text)
flush [] = []
flush (w ∷ ws) = (w ∷ ws) ∷ []

unfoldable pub windows_from : ℕ → ℕ → List Text → ℕ → List Text → List (List Text)
unfolding overlap_paragraphs estimate_tokens
windows_from slack token_overlap parts tokens [] = flush parts
windows_from slack token_overlap parts tokens (p ∷ ps) =
    let paragraph_tokens = estimate_tokens p in
    let overlap = overlap_paragraphs parts token_overlap in
    let same =
      windows_from slack token_overlap (parts ++ (p ∷ [])) (tokens + paragraph_tokens) ps in
    let next =
      windows_from slack token_overlap (overlap ++ (p ∷ [])) (sum_tokens overlap + paragraph_tokens)
        ps in
    if not (is_nil parts) && ltb slack (tokens + paragraph_tokens) then parts ∷ next else same

-- A window but for its spans and markers.
pub record TextWindow : Type 0 where
  pub window_id : Text
  pub text : Text
  pub token_estimate : ℕ

-- `f"{index:03d}"`
abbrev three_digits : ℕ → Text
three_digits index =
    if ltb index 10
    then codes "00" ++ decimal index
    else if ltb index 100
    then codes "0" ++ decimal index
    else decimal index

unfoldable pub emit : List Text → ℕ → TextWindow
unfolding join strip estimate_tokens
emit parts index =
    let window_text = strip (join (10 ∷ 10 ∷ []) parts) in
    record {
      window_id = codes "tw_" ++ three_digits index;
      text = window_text;
      token_estimate = estimate_tokens window_text;
    }

abbrev emit_each : ℕ → List (List Text) → List TextWindow
emit_each index [] = []
emit_each index (w ∷ ws) = emit w index ∷ emit_each (suc index) ws

unfoldable pub iter_text_windows : ℕ → ℕ → Text → List TextWindow
unfolding paragraphs_of windows_from emit
iter_text_windows token_target token_overlap text =
    emit_each 0 (windows_from (slack_of token_target) token_overlap [] 0 (paragraphs_of text))
