-- ===== src/Tests/IdentityRuns.antt =====
-- Runs of the identity of artifacts on concrete inputs.
use mnemonic_os.Base.{ℕ, ◌^◌, ◌<◌, ◌≡◌, refl, true, false, some, List, [], ◌∷◌, Text, codes}
use mnemonic_os.Identity.Hashing.{simhash64, simhash_buckets, value_from, shingle_tokens}
use mnemonic_os.Chunking.Terms.{join}
use mnemonic_os.Identity.Overlap.{ratio, prefix_suffix_overlap_ratio, common_prefix}
use mathlib.Core.List.{Mem}
use mnemonic_os.Identity.Classify.{effective, Best, Scored, consider, best_of, no_best, result_of}
use mnemonic_os.Identity.Buckets.{read_buckets, simhash64-buckets}
use mnemonic_os.Identity.Best.{result_of-overlap}

abbrev digest : Text → ℕ
digest s = 4660

simhash-one : simhash64 digest (codes "a" ∷ []) ≡ 4660
unfolding simhash64 value_from
simhash-one = refl

simhash64-buckets_example :
    (simhash64 digest (codes "a" ∷ []) < 2 ^ 64)
    × (read_buckets (simhash_buckets (simhash64 digest (codes "a" ∷ [])))
        ≡ simhash64 digest (codes "a" ∷ []))
simhash64-buckets_example = simhash64-buckets digest (codes "a" ∷ [])

shingles-short : shingle_tokens (codes "a" ∷ codes "b" ∷ []) ≡ codes "a b" ∷ []
unfolding shingle_tokens join
shingles-short = refl

overlap-prefix :
    prefix_suffix_overlap_ratio
      (codes "a" ∷ codes "b" ∷ codes "c" ∷ [])
      (codes "a" ∷ codes "b" ∷ codes "c" ∷ codes "d" ∷ [])
    ≡ (ratio 3 3, true)
unfolding prefix_suffix_overlap_ratio common_prefix
overlap-prefix = refl

-- The first candidate overlaps; the second, found later, has the same shingles.
abbrev scored : List Scored
scored =
    (codes "x", (ratio 1 10, (ratio 7 10, true)))
    ∷ (codes "y", (ratio 1 1, (ratio 0 1, false)))
    ∷ []

abbrev best : Best
best = record { id = some (codes "y"); score = ratio 1 1; overlap_related = true }

scored-best : best_of scored no_best ≡ best
unfolding best_of consider
scored-best = refl

result_of-overlap_example :
    let r = result_of (codes "f") (best_of scored no_best) 2 in
    (r.duplicate_state ≡ codes "overlap_related")
    × ((x : Scored) × Mem x scored
        × ((best_of scored no_best).id ≡ some x.0)
        × (r.canonical_archive_id ≡ some x.0)
        × (r.duplicate_confidence ≡ some (effective x.1.0 x.1.1)))
unfolding best_of consider
result_of-overlap_example = result_of-overlap (codes "f") scored 2 refl refl refl
