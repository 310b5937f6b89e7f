-- ===== src/World/Grid.antt =====
-- Where the objects of the scenes stand (world/tilemap.py).
use mnemonic_os.Base.{
  ℕ, suc, zero, ◌+◌, ◌%◌, ◌≤◌, ◌<◌, List, [], ◌∷◌, map, ◌≡◌, ◌≢◌, ◌⊎◌, inl, inr, arith, All, any,
  Bool-cases,
}
use mnemonic_os.World.Models.{ZoneSection, WorldSnapshot, LayoutObject}
use mnemonic_os.World.Routing.{related_note_ids}
use mnemonic_os.World.Library.{
  shelf_x, shelf_y, shelf_row_y, shelf, entry_pile, link_marker, crate, crates, crate_count,
  range_from, place_section, not_empty,
}

-- An object stands in the rectangle given by its left, top, right and bottom edge.
abbrev pub Within : ℕ → ℕ → ℕ → ℕ → LayoutObject → Type 0
Within left top right bottom o =
    (left ≤ o.x) × (o.x + o.width ≤ right) × (top ≤ o.y) × (o.y + o.height ≤ bottom)

-- Two rectangles share no point of their insides.
abbrev pub Apart : LayoutObject → LayoutObject → Type 0
Apart a b =
    (a.x + a.width ≤ b.x)
    ⊎ ((b.x + b.width ≤ a.x) ⊎ ((a.y + a.height ≤ b.y) ⊎ (b.y + b.height ≤ a.y)))

pub All-map :
    {A : Type 0} (P Q : A → Type 0) → ((a : A) → P a → Q a) → (xs : List A) → All P xs → All Q xs
All-map P Q f [] h = tt
All-map P Q f (x ∷ xs) h = (f x h.0, All-map P Q f xs h.1)

-- The cell of a section: its shelf and the gap to the right of it.
abbrev InCell : ℕ → LayoutObject → Type 0
InCell index = Within (shelf_x index) (shelf_y index) (shelf_x index + 330) (shelf_y index + 132)

shelf_row_y-cases :
    (row : ℕ)
    → row < 3
    → ((row ≡ 0) × (shelf_row_y row ≡ 320))
      ⊎ (((row ≡ 1) × (shelf_row_y row ≡ 570)) ⊎ ((row ≡ 2) × (shelf_row_y row ≡ 820)))
shelf_row_y-cases row h = ground arith

crate-InCell :
    (index : ℕ) (section : ZoneSection) (ci : ℕ) → ci < 6 → InCell index (crate index section ci)
unfolding crate
crate-InCell index section ci h =
    let rows = shelf_row_y-cases (index % 3) (omega arith) in
    (omega arith, omega arith, ground (arith, rows), ground (arith, rows))

crates-InCell :
    (index : ℕ) (section : ZoneSection) (a n : ℕ)
    → a + n ≤ 6
    → All (InCell index) (map (crate index section) (range_from a n))
crates-InCell index section a zero h = tt
crates-InCell index section a (suc n) h = (
  crate-InCell index section a (omega arith),
  crates-InCell index section (suc a) n (omega arith),
)

shelf-InCell : (index : ℕ) (section : ZoneSection) → InCell index (shelf index section)
unfolding shelf
shelf-InCell index section = (omega arith, omega arith, omega arith, omega arith)

entry_pile-InCell : (index : ℕ) (section : ZoneSection) → InCell index (entry_pile index section)
unfolding entry_pile
entry_pile-InCell index section = (omega arith, omega arith, omega arith, omega arith)

link_marker-InCell : (index : ℕ) (section : ZoneSection) → InCell index (link_marker index section)
unfolding link_marker
link_marker-InCell index section = (omega arith, omega arith, omega arith, omega arith)

place_section-InCell :
    (snapshot : WorldSnapshot) (index : ℕ) (section : ZoneSection)
    → All (InCell index) (place_section snapshot index section)
unfolding place_section crates crate_count
place_section-InCell snapshot index section =
    let boxes = crates-InCell index section 0 (crate_count section) (omega arith) in
    let links = any (λ entry. not_empty (related_note_ids entry snapshot)) section.entries in
    elim (Bool-cases (not_empty section.entries)) [
      | inr e ↦ rw e (shelf-InCell index section, tt)
      | inl e ↦ elim (Bool-cases links) [
        | inl f ↦
            rw (e, f)
              (
                shelf-InCell index section,
                (entry_pile-InCell index section, (link_marker-InCell index section, boxes)),
              )
        | inr f ↦ rw (e, f) (shelf-InCell index section, (entry_pile-InCell index section, boxes))
      ]
    ]

cells-Apart : (i j : ℕ) (a b : LayoutObject) → i ≢ j → InCell i a → InCell j b → Apart a b
cells-Apart i j a b ne ha hb =
    let rows = shelf_row_y-cases (i % 3) (omega arith) in
    let rows' = shelf_row_y-cases (j % 3) (omega arith) in ground (arith, rows, rows')

-- The objects that two sections at different places of the hall are given (shelf, entry pile,
-- marker, crates) never overlap, whatever the sections hold.
pub place_section-Apart :
    (snapshot : WorldSnapshot) (i j : ℕ) (s t : ZoneSection)
    → i ≢ j
    → All (λ a. All (Apart a) (place_section snapshot j t)) (place_section snapshot i s)
place_section-Apart snapshot i j s t ne =
    All-map (InCell i) _
      (λ a ha.
        All-map (InCell j) (Apart a) (λ b hb. cells-Apart i j a b ne ha hb)
          (place_section snapshot j t) (place_section-InCell snapshot j t))
      (place_section snapshot i s) (place_section-InCell snapshot i s)
