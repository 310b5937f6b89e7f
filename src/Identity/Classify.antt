-- ===== src/Identity/Classify.antt =====
-- artifact_identity.py: classify_post_parse_identity, write_identity_buckets and
-- update_archive_identity over the tables `archive` and `artifact_identity_buckets`.
use mnemonic_os.Base.{
  ℕ, Bool, true, false, not, ◌&&◌, ◌||◌, Option, none, some, List, [], ◌∷◌, ◌++◌, any, select,
  update_where, length, Text, codes, text_eq, member, if◌then◌else◌,
}
use mnemonic_os.Base.Sorting.{order_by}
use mnemonic_os.World.Routing.{text_lt}
use mnemonic_os.Identity.Hashing.{shingle_tokens, simhash64, simhash_buckets}
use mnemonic_os.Identity.Overlap.{
  Ratio, ratio, above, at_least, jaccard, prefix_suffix_overlap_ratio,
}

-- The columns of `archive` that are read and written here.
pub record ArchiveRow : Type 0 where
  pub id : Text
  pub ingested_at : Text
  pub duplicate_state : Option Text
  pub canonical_archive_id : Option Text
  pub identity_fingerprint : Option Text
  pub identity_fingerprint_version : Option Text
  pub duplicate_confidence : Option Ratio

pub record BucketRow : Type 0 where
  pub archive_id : Text
  pub bucket_kind : Text
  pub bucket_value : Text

-- The summary of the overlap, a rounded copy of the confidence and the count, is left out.
pub record IdentityResult : Type 0 where
  pub duplicate_state : Text
  pub canonical_archive_id : Option Text
  pub identity_fingerprint : Text
  pub duplicate_confidence : Option Ratio
  pub lsh_candidate_count : ℕ

-- `normalize_text(text).split()`, the two uses of SHA-256, and `_read_candidate_text`.
pub record Reader : Type 0 where
  pub tokens : Text → List Text
  pub fingerprint : Text → Text → Text
  pub digest : Text → ℕ
  pub candidate_text : Text → Text

abbrev pub fingerprint_version : Text
fingerprint_version = codes "text_norm_v1"

abbrev pub sql_text_eq : Option Text → Text → Bool
sql_text_eq none t = false
sql_text_eq (some s) t = text_eq s t

abbrev is_open_state : Option Text → Bool
is_open_state none = false
is_open_state (some s) =
    member s (codes "unique" ∷ codes "possible_duplicate" ∷ codes "overlap_related" ∷ [])

abbrev same_fingerprint : Text → Text → ArchiveRow → Bool
same_fingerprint fingerprint archive_id r =
    sql_text_eq r.identity_fingerprint fingerprint
    && (sql_text_eq r.identity_fingerprint_version fingerprint_version
        && (not (text_eq r.id archive_id) && is_open_state r.duplicate_state))

-- `ORDER BY ingested_at, id`
abbrev earlier : ArchiveRow → ArchiveRow → Bool
earlier a b =
    text_lt a.ingested_at b.ingested_at
    || (text_eq a.ingested_at b.ingested_at && not (text_lt b.id a.id))

abbrev pub first_row : List ArchiveRow → Option ArchiveRow
first_row [] = none
first_row (r ∷ _) = some r

unfoldable pub exact_fingerprint : Text → Text → List ArchiveRow → Option ArchiveRow
exact_fingerprint fingerprint archive_id rows =
    first_row (order_by earlier (select (same_fingerprint fingerprint archive_id) rows))

-- The ids in a bucket, but that of the artifact.
abbrev in_bucket : Text → Text × Text → List BucketRow → List Text
in_bucket archive_id (kind, value) [] = []
in_bucket archive_id (kind, value) (b ∷ bs) =
    let rest = in_bucket archive_id (kind, value) bs in
    if (text_eq b.bucket_kind kind && text_eq b.bucket_value value)
      && not (text_eq b.archive_id archive_id)
    then b.archive_id ∷ rest
    else rest

-- The keys of the dict of candidates: each id once, in the order of its first bucket.
abbrev add_ids : List Text → List Text → List Text
add_ids ids [] = ids
add_ids ids (x ∷ xs) =
    let same = add_ids ids xs in
    let longer = add_ids (ids ++ (x ∷ [])) xs in if member x ids then same else longer

abbrev candidates_in : Text → List BucketRow → List Text → List (Text × Text) → List Text
candidates_in archive_id table ids [] = ids
candidates_in archive_id table ids (b ∷ bs) =
    candidates_in archive_id table (add_ids ids (in_bucket archive_id b table)) bs

-- The buckets of a set of shingles, none for an empty one.
unfoldable pub buckets_of : (Text → ℕ) → List Text → List (Text × Text)
unfolding simhash_buckets simhash64
buckets_of digest [] = []
buckets_of digest (s ∷ ss) = simhash_buckets (simhash64 digest (s ∷ ss))

pub record Best : Type 0 where
  pub id : Option Text
  pub score : Ratio
  pub overlap_related : Bool

-- What a candidate scores: its overlap where that is related and above the Jaccard score.
abbrev pub takes_overlap : Ratio → Ratio × Bool → Bool
takes_overlap score (overlap, related) = related && above overlap score

abbrev pub effective : Ratio → Ratio × Bool → Ratio
effective score (overlap, related) =
    if takes_overlap score (overlap, related) then overlap else score

-- One turn of the loop over the candidates: the mark `overlap_related` is never taken back.
unfoldable pub consider : Text → Ratio → Ratio × Bool → Best → Best
consider candidate_id score overlap b =
    let marked = b.overlap_related || takes_overlap score overlap in
    let score' = effective score overlap in
    if above score' b.score
    then record { id = some candidate_id; score = score'; overlap_related = marked }
    else record b { overlap_related = marked }

-- A candidate with its two scores.
abbrev pub Scored : Type 0
Scored = Text × (Ratio × (Ratio × Bool))

unfoldable pub best_of : List Scored → Best → Best
unfolding consider
best_of [] b = b
best_of ((id, (score, overlap)) ∷ cs) b = best_of cs (consider id score overlap b)

abbrev pub no_best : Best
no_best = record { id = none; score = ratio 0 1; overlap_related = false }

abbrev verdict : Text → Text → Best → ℕ → IdentityResult
verdict fingerprint state b n = record {
  duplicate_state = state;
  canonical_archive_id = b.id;
  identity_fingerprint = fingerprint;
  duplicate_confidence = some b.score;
  lsh_candidate_count = n;
}

abbrev unique_result : Text → ℕ → IdentityResult
unique_result fingerprint n = record {
  duplicate_state = codes "unique";
  canonical_archive_id = none;
  identity_fingerprint = fingerprint;
  duplicate_confidence = none;
  lsh_candidate_count = n;
}

-- `if best_id`: an id that is None or "" is false.
abbrev pub has_id : Option Text → Bool
has_id none = false
has_id (some []) = false
has_id (some (_ ∷ _)) = true

unfoldable pub result_of : Text → Best → ℕ → IdentityResult
result_of fingerprint b n =
    if has_id b.id && (b.overlap_related && at_least 60 100 b.score)
    then verdict fingerprint (codes "overlap_related") b n
    else if has_id b.id && at_least 95 100 b.score
    then verdict fingerprint (codes "canonical_duplicate") b n
    else if has_id b.id && at_least 60 100 b.score
    then verdict fingerprint (codes "possible_duplicate") b n
    else unique_result fingerprint n

abbrev score_candidates : Reader → List Text → List Text → List Text → List Scored
score_candidates reader tokens shingles [] = []
score_candidates reader tokens shingles (id ∷ ids) =
    let other = reader.tokens (reader.candidate_text id) in
    (id, (jaccard shingles (shingle_tokens other), prefix_suffix_overlap_ratio tokens other))
    ∷ score_candidates reader tokens shingles ids

abbrev by_similarity : Reader → List BucketRow → Text → Text → Text → IdentityResult
by_similarity reader table archive_id fingerprint text =
    let tokens = reader.tokens text in
    let shingles = shingle_tokens tokens in
    let ids = candidates_in archive_id table [] (buckets_of reader.digest shingles) in
    result_of fingerprint (best_of (score_candidates reader tokens shingles ids) no_best)
      (length ids)

-- `JOIN archive a ON a.id = b.archive_id`
abbrev joined : List ArchiveRow → List BucketRow → List BucketRow
joined rows table = select (λ b. any (λ r. text_eq r.id b.archive_id) rows) table

abbrev by_fingerprint : Text → Option ArchiveRow → IdentityResult → IdentityResult
by_fingerprint fingerprint none similar = similar
by_fingerprint fingerprint (some r) similar = record {
  duplicate_state = codes "canonical_duplicate";
  canonical_archive_id = some r.id;
  identity_fingerprint = fingerprint;
  duplicate_confidence = some (ratio 1 1);
  lsh_candidate_count = 0;
}

unfoldable pub classify_post_parse_identity :
    Reader → List ArchiveRow → List BucketRow → Text → Text → Text → IdentityResult
unfolding exact_fingerprint buckets_of best_of result_of jaccard prefix_suffix_overlap_ratio
    shingle_tokens
classify_post_parse_identity reader rows table archive_id source_format text =
    let fingerprint = reader.fingerprint source_format text in
    by_fingerprint fingerprint (exact_fingerprint fingerprint archive_id rows)
      (by_similarity reader (joined rows table) archive_id fingerprint text)

abbrev bucket_rows : Text → List (Text × Text) → List BucketRow
bucket_rows archive_id [] = []
bucket_rows archive_id ((kind, value) ∷ bs) =
    (record { archive_id = archive_id; bucket_kind = kind; bucket_value = value })
    ∷ bucket_rows archive_id bs

-- The old rows of the artifact are deleted, so that no INSERT is ignored: the kinds are distinct.
unfoldable pub write_identity_buckets :
    Reader → Text → Text → Text → List BucketRow → List BucketRow
unfolding buckets_of shingle_tokens
write_identity_buckets reader archive_id text duplicate_state table =
    let kept = select (λ b. not (text_eq b.archive_id archive_id)) table in
    let buckets = buckets_of reader.digest (shingle_tokens (reader.tokens text)) in
    if is_open_state (some duplicate_state) then kept ++ bucket_rows archive_id buckets else kept

unfoldable pub update_archive_identity : Text → IdentityResult → List ArchiveRow → List ArchiveRow
update_archive_identity archive_id result rows =
    update_where (λ r. text_eq r.id archive_id)
      (λ r. record r {
        duplicate_state = some result.duplicate_state;
        canonical_archive_id = result.canonical_archive_id;
        identity_fingerprint = some result.identity_fingerprint;
        identity_fingerprint_version = some fingerprint_version;
        duplicate_confidence = result.duplicate_confidence;
      })
      rows
