-- ===== src/World/Models.antt =====
-- data/models.py of the game, as far as the layouts and the routing read it, and the objects of a
-- scene (world/tilemap.py).
use mnemonic_os.Base.{ℕ, Bool, false, Option, none, some, List, Text, text_eq, find_where}

pub record GameEntry : Type 0 where
  pub note_id : Text
  pub section_key : Text
  pub source_refs : List Text
  pub tags : List Text

pub record GameBook : Type 0 where
  pub title : Text
  pub session_slug : Text

pub record ZoneSection : Type 0 where
  pub key : Text
  pub label : Text
  pub entries : List GameEntry
  pub books : List GameBook
  pub reserved : Bool
  pub under_construction : Bool

pub record WorldZone : Type 0 where
  pub key : Text
  pub sections : List ZoneSection

pub record WorldSnapshot : Type 0 where
  pub note_entries : List GameEntry
  pub zones : List WorldZone

-- `WorldSnapshot.zone`; `none` is its `KeyError`.
unfoldable pub zone : WorldSnapshot → Text → Option WorldZone
zone snapshot key = find_where (λ z. text_eq z.key key) snapshot.zones

pub record LayoutObject : Type 0 where
  pub object_id : Text
  pub label : Text
  pub kind : Text
  pub x : ℕ
  pub y : ℕ
  pub width : ℕ
  pub height : ℕ
  pub scene_name : Text
  pub section_key : Option Text
  pub session_slug : Option Text
  pub target_scene : Option Text
  pub target_anchor_id : Option Text
  pub solid : Bool
  pub reserved : Bool
  pub bulk_count : ℕ

pub record SceneLayout : Type 0 where
  pub name : Text
  pub width : ℕ
  pub height : ℕ
  pub player_start : ℕ × ℕ
  pub objects : List LayoutObject

-- A `LayoutObject` with the defaults of its last fields.
abbrev pub object : Text → Text → Text → ℕ → ℕ → ℕ → ℕ → Text → LayoutObject
object id label kind x y width height scene = record {
  object_id = id;
  label = label;
  kind = kind;
  x = x;
  y = y;
  width = width;
  height = height;
  scene_name = scene;
  section_key = none;
  session_slug = none;
  target_scene = none;
  target_anchor_id = none;
  solid = false;
  reserved = false;
  bulk_count = 0;
}

-- A step that may raise `KeyError`, and what follows it.
infix 1 ◌>>=◌
abbrev pub ◌>>=◌ : {A B : Type 0} → Option A → (A → Option B) → Option B
none >>= f = none
some a >>= f = f a
