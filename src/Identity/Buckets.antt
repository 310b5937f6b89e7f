-- ===== src/Identity/Buckets.antt =====
-- The buckets of a simhash (artifact_identity.py) hold all of it.
use mnemonic_os.Base.{
  ℕ, zero, suc, ◌+◌, ◌-◌, ◌*◌, ◌/◌, ◌%◌, ◌^◌, ◌≤◌, ◌<◌, ltb, ◌≡◌, List, [], ◌∷◌, arith, if-cases,
  Text, if◌then◌else◌,
}
use mnemonic_os.Identity.Hashing.{
  hex_digit, hex4, bucket_value, simhash_buckets, value_from, simhash64, bit_set, digests_of,
}

-- The number that hexadecimal digits write, read from the left.
abbrev unhex_digit : ℕ → ℕ
unhex_digit c = if ltb c 58 then c - 48 else c - 87

abbrev unhex_from : ℕ → Text → ℕ
unhex_from n [] = n
unhex_from n (c ∷ s) = unhex_from (n * 16 + unhex_digit c) s

-- The value whose lowest sixteen bits are in the first bucket, the next in the second, and so on.
abbrev pub read_buckets : List (Text × Text) → ℕ
read_buckets [] = 0
read_buckets ((kind, value) ∷ bs) = unhex_from 0 value + 65536 * read_buckets bs

unhex-hex_digit : (d : ℕ) → d < 16 → unhex_digit (hex_digit d) ≡ d
unhex-hex_digit d h = ground arith

unhex-hex4 : (v : ℕ) → v < 65536 → unhex_from 0 (hex4 v) ≡ v
unhex-hex4 v h =
    rw
      (
        unhex-hex_digit (v / 4096 % 16) (omega arith),
        unhex-hex_digit (v / 256 % 16) (omega arith),
        unhex-hex_digit (v / 16 % 16) (omega arith),
        unhex-hex_digit (v % 16) (omega arith),
      )
      (omega arith)

-- The buckets of a value of 64 bits, read back, are the value: two artifacts with the same four
-- buckets have the same simhash.
pub read-simhash_buckets :
    (value : ℕ) → value < 2 ^ 64 → read_buckets (simhash_buckets value) ≡ value
unfolding simhash_buckets
read-simhash_buckets value h =
    rw
      (
        unhex-hex4 (bucket_value 0 value) (omega arith),
        unhex-hex4 (bucket_value 1 value) (omega arith),
        unhex-hex4 (bucket_value 2 value) (omega arith),
        unhex-hex4 (bucket_value 3 value) (omega arith),
      )
      (omega arith)

value_from-lt :
    (digests : List ℕ) (bit count : ℕ) → value_from digests bit count + 2 ^ bit ≤ 2 ^ (bit + count)
unfolding value_from
value_from-lt digests bit zero = let same : bit + 0 ≡ bit = omega arith in rw same (omega arith)
value_from-lt digests bit (suc count) =
    let later = value_from-lt digests (suc bit) count in
    let same : bit + suc count ≡ suc bit + count = omega arith in
    rw same (
      if-cases (λ (n : ℕ). n + value_from digests (suc bit) count + 2 ^ bit ≤ 2 ^ (suc bit + count))
        (bit_set digests bit) (λ _. omega (arith, later)) (λ _. omega (arith, later)))

-- The simhash of any shingles has 64 bits, so that its four buckets, read back, are the simhash.
pub simhash64-buckets :
    (digest : Text → ℕ) (shingles : List Text)
    → (simhash64 digest shingles < 2 ^ 64)
      × (read_buckets (simhash_buckets (simhash64 digest shingles)) ≡ simhash64 digest shingles)
unfolding simhash64
simhash64-buckets digest shingles =
    let bound = value_from-lt (digests_of digest shingles) 0 64 in
    let below : simhash64 digest shingles < 2 ^ 64 = omega (arith, bound) in
    (below, read-simhash_buckets (simhash64 digest shingles) below)
