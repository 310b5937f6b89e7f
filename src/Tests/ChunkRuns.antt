-- ===== src/Tests/ChunkRuns.antt =====
-- Runs of the cutting of texts on concrete inputs.
use mnemonic_os.Base.{
  ◌≤◌, ◌<◌, ◌≡◌, refl, some, List, [], ◌∷◌, ◌++◌, arith, All, length, select, Text, codes, Distinct,
  is_space, strip,
}
use mnemonic_os.Chunking.Units.{
  Span, slice, unit_spans, spans_from, word_length, is_cjk_char, span_groups, groups_from, step_of,
  chunk_text_by_units,
}
use mnemonic_os.Chunking.Terms.{flat_map, cjk_ngrams, runs_from, unseen}
use mnemonic_os.Chunking.Windows.{estimate_tokens, overlap_from, overlap_paragraphs, windows_from}
use mnemonic_os.Chunking.Coverage.{Covers, windows_from-all}
use mnemonic_os.Chunking.Spans.{not_space, rejoin, unit_spans-total, span_groups-total}
use mnemonic_os.Chunking.Ngrams.{cjk_ngrams-Distinct}

-- Two words, a space, and two CJK characters.
abbrev mixed : Text
mixed = codes "ab cd" ++ (0x4E2D ∷ 0x6587 ∷ [])

mixed-spans : unit_spans mixed ≡ some ((0, 2) ∷ (3, 5) ∷ (5, 6) ∷ (6, 7) ∷ [])
unfolding unit_spans spans_from word_length is_cjk_char is_space
mixed-spans = refl

mixed-chunks :
    chunk_text_by_units 3 1 mixed
    ≡ some ((codes "ab cd" ++ (0x4E2D ∷ [])) ∷ (0x4E2D ∷ 0x6587 ∷ []) ∷ [])
unfolding chunk_text_by_units unit_spans spans_from word_length is_cjk_char is_space span_groups
    groups_from strip
mixed-chunks = refl

unit_spans-total_example :
    (spans : List Span) × (unit_spans mixed ≡ some spans)
    × All (λ (a, b). a < b) spans
    × (flat_map (λ (a, b). slice a b mixed) spans ≡ select not_space mixed)
unit_spans-total_example = unit_spans-total mixed

abbrev four : List Span
four = (0, 2) ∷ (3, 5) ∷ (5, 6) ∷ (6, 7) ∷ []

span_groups-total_example :
    (groups : List (List Span)) × (span_groups 3 1 four ≡ some groups)
    × (rejoin (step_of 3 1) groups ≡ four)
    × All (λ g. length g ≤ 3) groups
span_groups-total_example = span_groups-total 3 1 four (omega arith)

mixed-ngrams : cjk_ngrams 1 2 mixed ≡ (0x4E2D ∷ []) ∷ (0x6587 ∷ []) ∷ (0x4E2D ∷ 0x6587 ∷ []) ∷ []
unfolding cjk_ngrams runs_from unseen is_cjk_char
mixed-ngrams = refl

cjk_ngrams-Distinct_example :
    Distinct (cjk_ngrams 1 2 mixed)
    × All (λ t. (1 ≤ length t) × (length t ≤ 2)) (cjk_ngrams 1 2 mixed)
cjk_ngrams-Distinct_example = cjk_ngrams-Distinct 1 2 mixed

abbrev paragraphs : List Text
paragraphs = codes "a b" ∷ codes "c" ∷ codes "d e" ∷ []

paragraphs-windows :
    windows_from 3 1 [] 0 paragraphs
    ≡ (codes "a b" ∷ codes "c" ∷ []) ∷ (codes "c" ∷ codes "d e" ∷ []) ∷ []
unfolding windows_from estimate_tokens overlap_paragraphs overlap_from is_space
paragraphs-windows = refl

windows_from-all_example : Covers 1 [] (windows_from 3 1 [] 0 paragraphs) paragraphs
windows_from-all_example = windows_from-all 3 1 paragraphs
