-- ===== src/World/Vault.antt =====
-- `build_dungeon_layout` of world/tilemap.py.
use mnemonic_os.Base.{
  ℕ, suc, ◌+◌, ◌*◌, ◌/◌, ◌%◌, true, ◌||◌, Option, some, List, [], ◌∷◌, ◌++◌, Text, codes, take,
  ◌==◌, if◌then◌else◌,
}
use mnemonic_os.World.Models.{
  GameBook, ZoneSection, WorldSnapshot, zone, LayoutObject, SceneLayout, object, ◌>>=◌,
}

abbrev vault : Text
vault = codes "vault"

-- `section_x[index % 4]`
abbrev pub section_x : ℕ → ℕ
section_x col = if col == 0 then 100 else if col == 1 then 420 else if col == 2 then 740 else 1060

abbrev pub vault_x : ℕ → ℕ
vault_x index = section_x (index % 4)

abbrev pub vault_y : ℕ → ℕ
vault_y index = 360 + (index / 4) * 220

unfoldable pub vault_shelf : ℕ → ZoneSection → LayoutObject
vault_shelf index section =
    let under_construction = section.reserved || section.under_construction in
    record (object (codes "vault-shelf:" ++ section.key)
      (if under_construction then [] else section.label) (codes "vault-shelf") (vault_x index)
      (vault_y index) 260 200 vault) {
        section_key = some section.key;
        reserved = under_construction;
        solid = true;
      }

unfoldable pub book_on_shelf : ℕ → ZoneSection → ℕ → GameBook → LayoutObject
book_on_shelf index section item_index book =
    record (object (codes "book:" ++ book.session_slug) book.title (codes "book")
      ((vault_x index + 14) + (item_index % 6) * 36) ((vault_y index + 40) + (item_index / 6) * 54)
      24 40 vault) { section_key = some section.key; session_slug = some book.session_slug }

unfoldable pub books_from : ℕ → ZoneSection → ℕ → List GameBook → List LayoutObject
unfolding book_on_shelf
books_from index section i [] = []
books_from index section i (b ∷ bs) =
    book_on_shelf index section i b ∷ books_from index section (suc i) bs

-- The body of the loop over the vault's sections.
unfoldable pub place_vault_section : ℕ → ZoneSection → List LayoutObject
unfolding vault_shelf books_from
place_vault_section index section =
    vault_shelf index section ∷ books_from index section 0 (take 12 section.books)

unfoldable pub place_vault_sections : ℕ → List ZoneSection → List LayoutObject
unfolding place_vault_section
place_vault_sections index [] = []
place_vault_sections index (s ∷ ss) =
    place_vault_section index s ++ place_vault_sections (suc index) ss

unfoldable pub build_dungeon_layout : WorldSnapshot → Option SceneLayout
unfolding zone place_vault_sections
build_dungeon_layout snapshot = do
  vault_zone ← zone snapshot vault
  some (record {
    name = vault;
    width = 1600;
    height = 1050;
    player_start = (240, 836);
    objects =
        place_vault_sections 0 vault_zone.sections
        ++ (object (codes "anchor:vault-return") (codes "Vault Stair Landing") (codes "anchor") 64
              972 16 16 vault
            ∷ record (object (codes "portal:library") [] (codes "stairs") 32 946 64 72 vault) {
              target_scene = some (codes "library");
              target_anchor_id = some (codes "anchor:library-return");
            }
            ∷ []);
  })
