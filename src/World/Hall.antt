-- ===== src/World/Hall.antt =====
-- The fixed objects of the library and the assembly of `build_library_layout` (world/tilemap.py).
use mnemonic_os.Base.{decimal, ℕ, suc, true, Option, none, some, List, [], ◌∷◌, ◌++◌, Text, codes}
use mnemonic_os.World.Models.{
  ZoneSection, WorldSnapshot, zone, LayoutObject, SceneLayout, object, ◌>>=◌,
}
use mnemonic_os.World.Library.{place_sections, system_wall}

abbrev library : Text
library = codes "library"

-- One object for each position of a list, numbered from `index`.
numbered : (ℕ → ℕ × ℕ → LayoutObject) → ℕ → List (ℕ × ℕ) → List LayoutObject
numbered make index [] = []
numbered make index (p ∷ ps) = make index p ∷ numbered make (suc index) ps

abbrev pillar : ℕ → ℕ × ℕ → LayoutObject
pillar index (px, py) =
    record (object (codes "pillar:" ++ decimal index) [] (codes "pillar") px py 24 120 library) {
      solid = true;
    }

abbrev torch : ℕ → ℕ × ℕ → LayoutObject
torch index (tx, ty) =
    object (codes "torch:" ++ decimal index) [] (codes "torch") tx ty 16 28 library

abbrev far_shelf : ℕ → ℕ × ℕ → LayoutObject
far_shelf index (fsx, fsy) =
    object (codes "far-shelf:" ++ decimal index) [] (codes "far-shelf") fsx fsy 110 56 library

-- Pillars, torches and decorative shelves.
unfoldable pub decorations : List LayoutObject
unfolding numbered
decorations =
    numbered pillar 0
      ((486, 290) ∷ (486, 560) ∷ (486, 830) ∷ (1758, 290) ∷ (1758, 560) ∷ (1758, 830) ∷ [])
    ++ (numbered torch 0
          ((220, 52) ∷ (540, 52) ∷ (860, 52) ∷ (1100, 52) ∷ (1420, 52) ∷ (1740, 52) ∷ [])
        ++ numbered far_shelf 0 ((300, 90) ∷ (700, 80) ∷ (1100, 92) ∷ (1500, 85) ∷ []))

-- The entrance, the landing, the daemon's counter and board, and the stairs.
unfoldable pub fixtures : List LayoutObject
fixtures =
    object (codes "entrance:library") (codes "Grand Entrance") (codes "entrance") 80 1020 220 80
      library
    ∷ object (codes "anchor:library-return") (codes "Library Stair Landing") (codes "anchor") 240
        726 16 16 library
    ∷ record (object (codes "daemon:counter") (codes "Daemon Counter") (codes "daemon") 150 810 230
        86 library) { solid = true }
    ∷ record (object (codes "daemon:board") (codes "Daemon Notice Board") (codes "board") 402 734 64
        128 library) { solid = true }
    ∷ record (object (codes "portal:vault") [] (codes "stairs") 220 642 64 72 library) {
      target_scene = some (codes "vault");
      target_anchor_id = some (codes "anchor:vault-return");
    }
    ∷ []

-- The sections of the zones that stand in the hall, in the order of the zones' keys; `none` is the
-- `KeyError` of a key that no zone has.
unfoldable pub hall_sections : WorldSnapshot → List Text → Option (List ZoneSection)
unfolding zone
hall_sections snapshot [] = some []
hall_sections snapshot (k ∷ ks) = do
  z ← zone snapshot k
  rest ← hall_sections snapshot ks
  some (z.sections ++ rest)

-- The last section of the zone "system", which each turn of the loop overwrites.
abbrev last_section : List ZoneSection → Option ZoneSection
last_section [] = none
last_section (s ∷ []) = some s
last_section (s ∷ t ∷ ss) = last_section (t ∷ ss)

unfoldable pub build_library_layout : WorldSnapshot → Option SceneLayout
unfolding zone hall_sections place_sections system_wall decorations fixtures
build_library_layout snapshot = do
  front ← hall_sections snapshot (
      codes "concepts"
      ∷ codes "procedures"
      ∷ codes "incidents"
      ∷ codes "review"
      ∷ codes "journals"
      ∷ [])
  system ← zone snapshot (codes "system")
  back ← hall_sections snapshot (codes "reserved" ∷ [])
  some (record {
    name = library;
    width = 1880;
    height = 1120;
    player_start = (150, 955);
    objects =
        place_sections snapshot 0 (front ++ back)
        ++ (system_wall (last_section system.sections) ++ (decorations ++ fixtures));
  })
