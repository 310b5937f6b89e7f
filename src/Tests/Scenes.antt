-- ===== src/Tests/Scenes.antt =====
-- Scenes of a small snapshot.
use mnemonic_os.Base.{ℕ, ◌+◌, ◌≤◌, ◌<◌, min, ◌≢◌, false, [], ◌∷◌, codes, arith, All}
use mnemonic_os.World.Models.{GameEntry, GameBook, ZoneSection, WorldSnapshot}
use mnemonic_os.World.Library.{place_section}
use mnemonic_os.World.Grid.{Apart, place_section-Apart}
use mnemonic_os.World.Crates.{bulk_total, place_section-bulk_bounds}

abbrev entry_one : GameEntry
entry_one = record {
  note_id = codes "n1";
  section_key = codes "s1";
  source_refs = [];
  tags = codes "t" ∷ [];
}

abbrev entry_two : GameEntry
entry_two = record {
  note_id = codes "n2";
  section_key = codes "s2";
  source_refs = [];
  tags = codes "t" ∷ [];
}

abbrev book : GameBook
book = record { title = codes "A day"; session_slug = codes "day" }

abbrev section : ZoneSection
section = record {
  key = codes "s1";
  label = codes "Section";
  entries = entry_one ∷ [];
  books = book ∷ [];
  reserved = false;
  under_construction = false;
}

abbrev snapshot : WorldSnapshot
snapshot = record { note_entries = entry_one ∷ entry_two ∷ []; zones = [] }

zero_one : ◌≢◌ {A = ℕ} 0 1
zero_one e = omega (arith, e)

place_section-Apart_example :
    All (λ a. All (Apart a) (place_section snapshot 1 section)) (place_section snapshot 0 section)
place_section-Apart_example = place_section-Apart snapshot 0 1 section section zero_one

place_section-bulk_bounds_example :
    (bulk_total (place_section snapshot 0 section) ≤ 1)
    × (bulk_total (place_section snapshot 0 section) ≤ 600)
    × (min 600 1 < bulk_total (place_section snapshot 0 section) + 100)
place_section-bulk_bounds_example = place_section-bulk_bounds snapshot 0 section
