-- ===== src/Candidates/Json.antt =====
-- The values that `json.loads` gives, and what extraction/validation.py and promotion/gate.py do
-- with them: `isinstance`, truth, `dict.get`, `str`.
use mnemonic_os.Base.{
  ℕ, suc, Bool, true, false, not, ◌||◌, ◌==◌, Option, none, some, List, [], ◌∷◌, ◌++◌, map, Text,
  text_eq, codes, is_empty, decimal, strip, if◌then◌else◌,
}

-- A JSON integer. `negsuc n` is -(n + 1).
pub data ℤ : Type 0 where
  pos : ℕ → ℤ
  negsuc : ℕ → ℤ

-- A float is its `repr`. An object lists the keys of the dict in order, each of them once.
mutual
  pub data Value : Type 0 where
    null : Value
    bool : Bool → Value
    int : ℤ → Value
    float : Text → Value
    text : Text → Value
    arr : Items → Value
    obj : Fields → Value

  pub data Items : Type 0 where
    nil : Items
    cons : Value → Items → Items

  pub data Fields : Type 0 where
    end : Fields
    field : Text → Value → Fields → Fields

abbrev pub to_list : Items → List Value
to_list nil = []
to_list (cons v vs) = v ∷ to_list vs

-- `isinstance(v, list)`, with the items.
abbrev pub as_list : Value → Option (List Value)
as_list (arr vs) = some (to_list vs)
as_list _ = none

-- `isinstance(v, dict)`, with the fields.
abbrev pub as_object : Value → Option Fields
as_object (obj fs) = some fs
as_object _ = none

-- `fields.get(key)`: `None` where the key is missing.
abbrev pub get : Text → Fields → Value
get key end = null
get key (field k v fs) = let rest = get key fs in if text_eq key k then v else rest

-- `key in fields`
abbrev pub has_key : Text → Fields → Bool
has_key key end = false
has_key key (field k v fs) = text_eq key k || has_key key fs

-- `{**fields, key: value}`
abbrev pub set : Text → Value → Fields → Fields
set key value end = field key value end
set key value (field k v fs) =
    let rest = set key value fs in if text_eq key k then field k value fs else field k v rest

abbrev keys : Fields → List Value
keys end = []
keys (field k v fs) = text k ∷ keys fs

-- `bool(v)`
unfoldable pub truthy : Value → Bool
truthy null = false
truthy (bool b) = b
truthy (int (pos n)) = not (n == 0)
truthy (int (negsuc n)) = true
truthy (float s) = not (text_eq s (codes "0.0") || text_eq s (codes "-0.0"))
truthy (text s) = not (is_empty s)
truthy (arr nil) = false
truthy (arr (cons v vs)) = true
truthy (obj end) = false
truthy (obj (field k v fs)) = true

-- `a or b`
abbrev pub or_value : Value → Value → Value
or_value a b = if truthy a then a else b

-- `str(v)`. Of a list and of an object it is `repr`, an argument.
unfoldable pub str_of : (Value → Text) → Value → Text
str_of repr null = codes "None"
str_of repr (bool true) = codes "True"
str_of repr (bool false) = codes "False"
str_of repr (int (pos n)) = decimal n
str_of repr (int (negsuc n)) = codes "-" ++ decimal (suc n)
str_of repr (float s) = s
str_of repr (text s) = s
str_of repr (arr vs) = repr (arr vs)
str_of repr (obj fs) = repr (obj fs)

-- `str(v or "")`
abbrev pub str_or_empty : (Value → Text) → Value → Text
str_or_empty repr v = if truthy v then str_of repr v else []

-- `str(fields.get(key) or "").strip()`
abbrev pub clean : (Value → Text) → Text → Fields → Text
clean repr key fs = strip (str_or_empty repr (get key fs))

-- `for item in v or []`; `none` is the `TypeError` of a number.
unfoldable pub iterate : Value → Option (List Value)
iterate null = some []
iterate (bool b) = if b then none else some []
iterate (int n) = if truthy (int n) then none else some []
iterate (float s) = if truthy (float s) then none else some []
iterate (text s) = some (map (λ c. text (c ∷ [])) s)
iterate (arr vs) = some (to_list vs)
iterate (obj fs) = some (keys fs)
