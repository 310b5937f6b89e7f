-- ===== src/World/Crates.antt =====
-- What the crates of a library section stand for (world/tilemap.py).
use mnemonic_os.Base.{
  ℕ, suc, zero, ◌+◌, ◌*◌, ◌/◌, ◌≤◌, ◌<◌, min, false, List, [], ◌∷◌, map, ◌≡◌, inl, inr, refl, arith,
  length, any, Bool-cases,
}
use mnemonic_os.World.Models.{ZoneSection, WorldSnapshot, LayoutObject, GameEntry}
use mnemonic_os.World.Routing.{related_note_ids}
use mnemonic_os.World.Library.{
  shelf, entry_pile, link_marker, crate, crates, crate_count, range_from, place_section, not_empty,
}

-- The entries that the objects of a list stand for.
abbrev pub bulk_total : List LayoutObject → ℕ
bulk_total [] = 0
bulk_total (o ∷ os) = o.bulk_count + bulk_total os

crates-bulk :
    (index : ℕ) (section : ZoneSection) (a n : ℕ)
    → bulk_total (map (crate index section) (range_from a n)) ≡ 100 * n
unfolding crate
crates-bulk index section a zero = refl
crates-bulk index section a (suc n) = omega (arith, crates-bulk index section (suc a) n)

place_section-bulk :
    (snapshot : WorldSnapshot) (index : ℕ) (section : ZoneSection)
    → bulk_total (place_section snapshot index section) ≡ 100 * min 6 (length section.entries / 100)
unfolding place_section crates crate_count shelf entry_pile link_marker
place_section-bulk snapshot index section =
    let boxes = crates-bulk index section 0 (crate_count section) in
    let links = any (λ entry. not_empty (related_note_ids entry snapshot)) section.entries in
    elim (Bool-cases (not_empty section.entries)) [
      | inr e ↦ rw e (no_entries section.entries e)
      | inl e ↦ elim (Bool-cases links) [
        | inl f ↦ rw (e, f) (omega (arith, boxes))
        | inr f ↦ rw (e, f) (omega (arith, boxes))
      ]
    ]
  where
    no_entries : (es : List GameEntry) → not_empty es ≡ false → 0 ≡ 100 * min 6 (length es / 100)
    no_entries [] e = refl
    no_entries (x ∷ es) e = ground (arith, e)

-- The crates of a section never stand for more entries than it has, nor for more than 600, and of
-- the first 600 entries of a section they leave out fewer than 100.
pub place_section-bulk_bounds :
    (snapshot : WorldSnapshot) (index : ℕ) (section : ZoneSection)
    → let bulk = bulk_total (place_section snapshot index section) in
      (bulk ≤ length section.entries)
      × (bulk ≤ 600)
      × (min 600 (length section.entries) < bulk + 100)
place_section-bulk_bounds snapshot index section =
    let e = place_section-bulk snapshot index section in
    (omega (arith, e), omega (arith, e), omega (arith, e))
