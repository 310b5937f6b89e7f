-- ===== src/World/Library.antt =====
-- `build_library_layout` of world/tilemap.py.
use mnemonic_os.Base.{
  decimal, ℕ, suc, zero, ◌+◌, ◌-◌, ◌*◌, ◌/◌, ◌%◌, min, Bool, true, false, ◌||◌, Option, none, some,
  List, [], ◌∷◌, ◌++◌, map, Text, codes, any, length, ◌==◌, if◌then◌else◌,
}
use mnemonic_os.World.Models.{ZoneSection, WorldSnapshot, LayoutObject, object}
use mnemonic_os.World.Routing.{related_note_ids}

abbrev pub not_empty : {A : Type 0} → List A → Bool
not_empty [] = false
not_empty (_ ∷ _) = true

abbrev pub shelf_width : ℕ
shelf_width = 240

abbrev pub shelf_height : ℕ
shelf_height = 132

-- `_CRATE_SIZE`
abbrev pub crate_size : ℕ
crate_size = 100

-- `shelf_row_y[index % 3]`
abbrev pub shelf_row_y : ℕ → ℕ
shelf_row_y row = if row == 0 then 320 else if row == 1 then 570 else 820

abbrev pub shelf_x : ℕ → ℕ
shelf_x index = 560 + (index / 3) * 330

abbrev pub shelf_y : ℕ → ℕ
shelf_y index = shelf_row_y (index % 3)

abbrev library : Text
library = codes "library"

unfoldable pub shelf : ℕ → ZoneSection → LayoutObject
unfolding decimal
shelf index section =
    let under_construction = section.reserved || section.under_construction in
    record (object (codes "shelf:" ++ section.key)
      (if under_construction
        then []
        else section.label ++ (codes " (" ++ (decimal (length section.entries) ++ codes ")")))
      (codes "shelf") (shelf_x index) (shelf_y index) shelf_width shelf_height library) {
        section_key = some section.key;
        reserved = under_construction;
        solid = true;
      }

unfoldable pub entry_pile : ℕ → ZoneSection → LayoutObject
entry_pile index section =
    record (object (codes "entry-pile:" ++ section.key) section.label (codes "entry-pile")
      (shelf_x index + 12) (shelf_y index + 14) (shelf_width - 24) (shelf_height - 28) library) {
        section_key = some section.key;
      }

unfoldable pub link_marker : ℕ → ZoneSection → LayoutObject
link_marker index section =
    record (object (codes "marker:" ++ section.key) (codes "Links") (codes "marker")
      ((shelf_x index + 12) + (shelf_width - 24) - 18) ((shelf_y index + 14) - 10) 12 12 library) {
        section_key = some section.key;
      }

unfoldable pub crate : ℕ → ZoneSection → ℕ → LayoutObject
unfolding decimal
crate index section ci =
    record (object (codes "crate:" ++ (section.key ++ (codes ":" ++ decimal ci)))
      (215 ∷ codes "100") (codes "crate") ((shelf_x index + shelf_width + 8) + (ci % 2) * 38)
      ((shelf_y index + shelf_height - 32) - (ci / 2) * 38) 32 32 library) {
        section_key = some section.key;
        bulk_count = crate_size;
      }

-- `range(a, a + n)`
abbrev pub range_from : ℕ → ℕ → List ℕ
range_from a zero = []
range_from a (suc n) = a ∷ range_from (suc a) n

unfoldable pub crate_count : ZoneSection → ℕ
crate_count section = min 6 (length section.entries / crate_size)

unfoldable pub crates : ℕ → ZoneSection → List LayoutObject
unfolding crate crate_count
crates index section = map (crate index section) (range_from 0 (crate_count section))

-- The body of the loop over `hall_sections`.
unfoldable pub place_section : WorldSnapshot → ℕ → ZoneSection → List LayoutObject
unfolding shelf entry_pile link_marker crates
place_section snapshot index section =
    shelf index section
    ∷ (if not_empty section.entries
        then entry_pile index section
          ∷ ((if any (λ entry. not_empty (related_note_ids entry snapshot)) section.entries
                then link_marker index section ∷ []
                else [])
              ++ crates index section)
        else [])

unfoldable pub place_sections : WorldSnapshot → ℕ → List ZoneSection → List LayoutObject
unfolding place_section
place_sections snapshot index [] = []
place_sections snapshot index (s ∷ ss) =
    place_section snapshot index s ++ place_sections snapshot (suc index) ss

bulletin_note : ZoneSection → ℕ → ℕ × ℕ → LayoutObject
unfolding decimal
bulletin_note section index (x, y) =
    record (object (codes "bulletin-note:" ++ (section.key ++ (codes ":" ++ decimal index))) []
      (codes "bulletin-note") x y 24 28 library) { section_key = some section.key }

-- The wall of the system section, with its notes.
unfoldable pub system_wall : Option ZoneSection → List LayoutObject
unfolding bulletin_note
system_wall none = []
system_wall (some section) =
    record (object (codes "shelf:" ++ section.key) (codes "RULES") (codes "bulletin-wall") 44 670 88
      206 library) { section_key = some section.key; solid = true }
    ∷ bulletin_note section 0 (44 + 12, 670 + 36)
    ∷ bulletin_note section 1 (44 + 44, 670 + 30)
    ∷ bulletin_note section 2 (44 + 14, 670 + 92)
    ∷ bulletin_note section 3 (44 + 42, 670 + 98)
    ∷ []
