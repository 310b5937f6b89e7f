-- ===== src/Identity/Hashing.antt =====
-- artifact_identity.py: shingle_tokens, simhash64, simhash_buckets. The tokens of `normalize_text`
-- (by `re` and casefold) and the first eight bytes of a SHA-256 as a number are arguments.
use mnemonic_os.Base.{
  ℕ, zero, suc, ◌+◌, ◌*◌, ◌/◌, ◌%◌, ◌^◌, ltb, leb, ◌==◌, Bool, not, List, [], ◌∷◌, ◌++◌,
  count_where, length, take, Text, codes, decimal, member, if◌then◌else◌,
}
use mnemonic_os.Chunking.Terms.{join}

abbrev shingle_size : ℕ
shingle_size = 5

-- The joined windows of five tokens, of at least five.
unfoldable pub windows_of : List Text → List Text
unfolding join
windows_of [] = []
windows_of (t ∷ ts) =
    let rest = windows_of ts in
    if ltb (length (t ∷ ts)) shingle_size
    then []
    else join (codes " ") (take shingle_size (t ∷ ts)) ∷ rest

abbrev pub as_set : List Text → List Text
as_set [] = []
as_set (x ∷ xs) = let rest = as_set xs in if member x rest then rest else x ∷ rest

-- `shingle_tokens`, of the tokens of a text: a set, as a list with no repetition.
unfoldable pub shingle_tokens : List Text → List Text
unfolding windows_of join
shingle_tokens [] = []
shingle_tokens (t ∷ ts) =
    if ltb (length (t ∷ ts)) shingle_size
    then join (codes " ") (t ∷ ts) ∷ []
    else as_set (windows_of (t ∷ ts))

-- `digest & (1 << bit)`
abbrev pub has_bit : ℕ → ℕ → Bool
has_bit bit digest = digest / 2 ^ bit % 2 == 1

-- `weights[bit] >= 0`: the weight is the number of digests with the bit less that of the others.
abbrev pub bit_set : List ℕ → ℕ → Bool
bit_set digests bit =
    leb (count_where (λ d. not (has_bit bit d)) digests) (count_where (has_bit bit) digests)

-- The value of the bits from `bit` on, `count` of them.
unfoldable pub value_from : List ℕ → ℕ → ℕ → ℕ
value_from digests bit zero = 0
value_from digests bit (suc count) =
    (if bit_set digests bit then 2 ^ bit else 0) + value_from digests (suc bit) count

abbrev pub digests_of : (Text → ℕ) → List Text → List ℕ
digests_of digest [] = []
digests_of digest (s ∷ ss) = digest s ∷ digests_of digest ss

unfoldable pub simhash64 : (Text → ℕ) → List Text → ℕ
unfolding value_from
simhash64 digest shingles = value_from (digests_of digest shingles) 0 64

-- `(value >> (band * 16)) & 0xffff`
abbrev pub bucket_value : ℕ → ℕ → ℕ
bucket_value band value = value / 2 ^ (band * 16) % 2 ^ 16

abbrev pub hex_digit : ℕ → ℕ
hex_digit d = if ltb d 10 then 48 + d else 87 + d

-- `f"{value:04x}"` of a number below 2^16.
abbrev pub hex4 : ℕ → Text
hex4 v =
    hex_digit (v / 4096 % 16)
    ∷ hex_digit (v / 256 % 16)
    ∷ hex_digit (v / 16 % 16)
    ∷ hex_digit (v % 16)
    ∷ []

abbrev pub bucket : ℕ → ℕ → Text × Text
bucket value band = (codes "simhash_band_" ++ decimal band, hex4 (bucket_value band value))

unfoldable pub simhash_buckets : ℕ → List (Text × Text)
simhash_buckets value = bucket value 0 ∷ bucket value 1 ∷ bucket value 2 ∷ bucket value 3 ∷ []
