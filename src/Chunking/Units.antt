-- ===== src/Chunking/Units.antt =====
-- text_processing.py: is_cjk_char, _unit_spans, count_chunk_units, chunk_text_by_units.
use mnemonic_os.Base.{
  ℕ, zero, suc, ◌+◌, ◌-◌, leb, Bool, not, ◌&&◌, ◌||◌, Option, none, some, List, [], ◌∷◌, max,
  length, take, Text, is_space, strip, if◌then◌else◌,
}

abbrev pub drop : {A : Type 0} → ℕ → List A → List A
drop zero xs = xs
drop (suc n) [] = []
drop (suc n) (x ∷ xs) = drop n xs

abbrev between : ℕ → ℕ → ℕ → Bool
between a b c = leb a c && leb c b

unfoldable pub is_cjk_char : ℕ → Bool
is_cjk_char c =
    between 0x3400 0x4DBF c
    || (between 0x4E00 0x9FFF c
        || (between 0xF900 0xFAFF c
            || (between 0x20000 0x2A6DF c
                || (between 0x2A700 0x2B73F c
                    || (between 0x2B740 0x2B81F c
                        || (between 0x2B820 0x2CEAF c
                            || (between 0x2CEB0 0x2EBEF c || between 0x30000 0x3134F c)))))))

abbrev pub Span : Type 0
Span = ℕ × ℕ

-- The inner loop of `_unit_spans`: the characters up to the next space or CJK character.
unfoldable pub word_length : Text → ℕ
unfolding is_cjk_char is_space
word_length [] = 0
word_length (c ∷ s) =
    let rest = word_length s in if not (is_space c) && not (is_cjk_char c) then suc rest else 0

-- The outer loop, at an index whose text is left, on fuel; `none` where the fuel runs out.
abbrev pub prepend_span : Span → Option (List Span) → Option (List Span)
prepend_span span none = none
prepend_span span (some spans) = some (span ∷ spans)

unfoldable pub spans_from : ℕ → ℕ → Text → Option (List Span)
unfolding is_cjk_char word_length is_space
spans_from fuel index [] = some []
spans_from zero index (c ∷ s) = none
spans_from (suc fuel) index (c ∷ s) =
    let next = spans_from fuel (index + 1) s in
    let n = word_length (c ∷ s) in
    let past_word = spans_from fuel (index + n) (drop n (c ∷ s)) in
    if is_space c
    then next
    else if is_cjk_char c
    then prepend_span (index, index + 1) next
    else prepend_span (index, index + n) past_word

-- `_unit_spans`: every turn of the loop takes a character at least.
unfoldable pub unit_spans : Text → Option (List Span)
unfolding spans_from
unit_spans text = spans_from (length text) 0 text

-- `text[start:end]`
abbrev pub slice : ℕ → ℕ → Text → Text
slice start end text = take (end - start) (drop start text)

-- `chunk_spans[-1][1]`, for spans that follow one.
abbrev last_end : Span → List Span → ℕ
last_end span [] = span.1
last_end span (s ∷ spans) = last_end s spans

-- The chunk of the spans taken, where there are any.
abbrev pub chunk_of : Text → List Span → Text
chunk_of text [] = []
chunk_of text (s ∷ spans) = strip (slice s.0 (last_end s spans) text)

abbrev keep_chunk : Text → List Text → List Text
keep_chunk [] chunks = chunks
keep_chunk (c ∷ s) chunks = (c ∷ s) ∷ chunks

-- The groups of spans that the loop of `chunk_text_by_units` takes, from the spans left at its start
-- index: it ends at the group that reaches the last span. `none` where the fuel runs out.
abbrev prepend_group : List Span → Option (List (List Span)) → Option (List (List Span))
prepend_group group none = none
prepend_group group (some groups) = some (group ∷ groups)

unfoldable pub groups_from : ℕ → ℕ → ℕ → List Span → Option (List (List Span))
groups_from fuel chunk_units step [] = some []
groups_from zero chunk_units step (s ∷ spans) = none
groups_from (suc fuel) chunk_units step (s ∷ spans) =
    let rest = groups_from fuel chunk_units step (drop step (s ∷ spans)) in
    let group = take chunk_units (s ∷ spans) in
    if leb (length (s ∷ spans)) chunk_units then some (group ∷ []) else prepend_group group rest

-- `step = max(chunk_units - overlap_units, 1)`; no less than 1 where the difference is negative.
abbrev pub step_of : ℕ → ℕ → ℕ
step_of chunk_units overlap_units = max (chunk_units - overlap_units) 1

unfoldable pub span_groups : ℕ → ℕ → List Span → Option (List (List Span))
unfolding groups_from
span_groups chunk_units overlap_units spans =
    groups_from (length spans) chunk_units (step_of chunk_units overlap_units) spans

abbrev pub chunks_of : Text → List (List Span) → List Text
chunks_of text [] = []
chunks_of text (g ∷ groups) = keep_chunk (chunk_of text g) (chunks_of text groups)

abbrev pub chunks_of_groups : Text → Option (List (List Span)) → Option (List Text)
chunks_of_groups text none = none
chunks_of_groups text (some groups) = some (chunks_of text groups)

abbrev chunks_of_spans : ℕ → ℕ → Text → Option (List Span) → Option (List Text)
chunks_of_spans chunk_units overlap_units text none = none
chunks_of_spans chunk_units overlap_units text (some spans) =
    chunks_of_groups text (span_groups chunk_units overlap_units spans)

-- `none` where a loop runs out of fuel.
unfoldable pub chunk_text_by_units : ℕ → ℕ → Text → Option (List Text)
unfolding unit_spans span_groups
chunk_text_by_units chunk_units overlap_units text =
    chunks_of_spans chunk_units overlap_units text (unit_spans text)

abbrev count_spans : Option (List Span) → Option ℕ
count_spans none = none
count_spans (some spans) = some (length spans)

unfoldable pub count_chunk_units : Text → Option ℕ
unfolding unit_spans
count_chunk_units text = count_spans (unit_spans text)
