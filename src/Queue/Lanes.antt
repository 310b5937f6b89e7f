-- ===== src/Queue/Lanes.antt =====
-- The order in which pending rows are taken: `pending_items`, and its two halves
-- `pending_quick_items` and `pending_slow_items`.
use mnemonic_os.Base.{
  ℕ, String, Text, Bool, true, false, not, ◌&&◌, ◌||◌, Option, none, some, List, [], ◌∷◌, map, ltb,
  leb, ◌==◌, if◌then◌else◌, lower_char, str_eq, codes, text_eq, any, select, take,
}
use mnemonic_os.Base.Sorting.{order_by}
use mnemonic_os.Queue.{SourceKind, artifact, episode, session, Row, Item, is_pending, row_to_item}

-- The columns `id` and `source_format` of the table `archive`.
abbrev pub Archive : Type 0
Archive = List (String × Option Text)

-- LEFT JOIN archive a ON a.id = q.archive_id
source_format_of : Archive → Option String → Option Text
source_format_of archive none = none
source_format_of [] (some a) = none
source_format_of ((id, format) ∷ archive) (some a) =
    let rest = source_format_of archive (some a) in if str_eq id a then format else rest

-- `ltrim(x, '.')`
ltrim_dots : Text → Text
ltrim_dots [] = []
ltrim_dots (c ∷ s) = let rest = ltrim_dots s in if c == b'.' then rest else c ∷ s

-- `lower(ltrim(COALESCE(a.source_format, ''), '.'))`
normal_format : Option Text → Text
unfolding ltrim_dots
normal_format none = []
normal_format (some s) = map lower_char (ltrim_dots s)

light_formats : List Text
light_formats =
    codes "md"
    ∷ codes "markdown"
    ∷ codes "txt"
    ∷ codes "text"
    ∷ codes "plain_text"
    ∷ codes "log"
    ∷ []

heavy_formats : List Text
heavy_formats = codes "pdf" ∷ codes "docx" ∷ codes "pptx" ∷ []

pub is_light : Text → Bool
unfolding light_formats
is_light format = any (text_eq format) light_formats

pub is_heavy : Text → Bool
unfolding heavy_formats
is_heavy format = any (text_eq format) heavy_formats

pub format_of : Archive → Row → Text
unfolding source_format_of normal_format
format_of archive r = normal_format (source_format_of archive r.archive_id)

abbrev is_talk : SourceKind → Bool
is_talk episode = true
is_talk session = true
is_talk _ = false

abbrev is_artifact : SourceKind → Bool
is_artifact artifact = true
is_artifact _ = false

-- The CASE of `pending_items`.
unfoldable pub lane : Archive → Row → ℕ
unfolding is_light is_heavy format_of
lane archive r =
    if is_talk r.source_kind
    then 0
    else if is_artifact r.source_kind && is_light (format_of archive r)
    then 1
    else if is_artifact r.source_kind && is_heavy (format_of archive r)
    then 3
    else 2

-- The CASE of `pending_quick_items`.
unfoldable pub quick_lane : Row → ℕ
quick_lane r = if is_talk r.source_kind then 0 else 1

-- The CASE of `pending_slow_items`.
unfoldable pub slow_lane : Archive → Row → ℕ
unfolding is_heavy format_of
slow_lane archive r = if is_heavy (format_of archive r) then 1 else 0

-- `ORDER BY lane ASC, queued_at ASC, id ASC`
unfoldable pub before : (Row → ℕ) → Row → Row → Bool
before rank r s =
    if rank r == rank s
    then (if r.queued_at == s.queued_at then leb r.id s.id else ltb r.queued_at s.queued_at)
    else ltb (rank r) (rank s)

unfoldable pub pending_items : Archive → ℕ → List Row → List Item
pending_items archive limit rows =
    map row_to_item
      (take limit (order_by (before (lane archive)) (select (λ r. is_pending r.status) rows)))

-- The WHERE of `pending_quick_items`, after its test on the status.
unfoldable pub is_quick : Archive → Row → Bool
unfolding is_light format_of
is_quick archive r =
    is_talk r.source_kind || (is_artifact r.source_kind && is_light (format_of archive r))

unfoldable pub pending_quick_items : Archive → ℕ → List Row → List Item
unfolding quick_lane
pending_quick_items archive limit rows = map row_to_item (
    take limit
      (order_by (before quick_lane) (select (λ r. is_pending r.status && is_quick archive r) rows)))

-- The WHERE of `pending_slow_items`, after its test on the status.
unfoldable pub is_slow : Archive → Row → Bool
unfolding is_light format_of
is_slow archive r =
    not (is_talk r.source_kind) && not (is_artifact r.source_kind && is_light (format_of archive r))

unfoldable pub pending_slow_items : Archive → ℕ → List Row → List Item
unfolding slow_lane
pending_slow_items archive limit rows = map row_to_item (
    take limit (
      order_by (before (slow_lane archive))
        (select (λ r. is_pending r.status && is_slow archive r) rows)))
