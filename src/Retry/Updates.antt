-- ===== src/Retry/Updates.antt =====
-- Loops of UPDATEs by id, as one pass over the table.
use mnemonic_os.Base.{
  ℕ, ◌≡◌, refl, sym, ap, ◌∙◌, inl, inr, Bool, true, false, ◌&&◌, List, [], ◌∷◌, ◌++◌, map, arith,
  ◌==◌, if◌then◌else◌, Bool-cases, any, select, All,
}
use mathlib.Core.List.{append_assoc, append-nil}
use mnemonic_os.Base.Sorting.{insert, order_by}
use mnemonic_os.Queue.{Row}
use mnemonic_os.Retry.{
  Stats, for_each, update_id, sort_errors, judge, is_retry, is_tombstone_timeout,
}

-- The column `id` is the primary key.
abbrev pub UniqueIds : List Row → Type 0
UniqueIds [] = Unit
UniqueIds (r ∷ rs) = (any (λ s. s.id == r.id) rs ≡ false) × UniqueIds rs

abbrev pub matching : ℕ → List Row → List Row
matching q rows = select (λ s. s.id == q) rows

-- What a loop of UPDATEs over `selected` does to one row.
abbrev pub touch : (Row → Row → Row) → List Row → Row → Row
touch f [] r = r
touch f (s ∷ selected) r = touch f selected (if r.id == s.id then f s r else r)

map-update_id :
    (g f : Row → Row) (id : ℕ) (rows : List Row)
    → map g (update_id id f rows) ≡ map (λ r. g (if r.id == id then f r else r)) rows
unfolding update_id
map-update_id g f id [] = refl
map-update_id g f id (r ∷ rows) =
    ap (λ t. g (if r.id == id then f r else r) ∷ t) (map-update_id g f id rows)

map_same : (rows : List Row) → map (λ r. r) rows ≡ rows
map_same [] = refl
map_same (r ∷ rows) = ap (λ t. r ∷ t) (map_same rows)

-- A loop whose body updates by id, and keeps a count beside, updates every row by `touch`.
module _ (f : Row → Row → Row) (body : Row → Stats × List Row → Stats × List Row)
    (updates : (read : Row) (st : Stats) (table : List Row)
      → (body read (st, table)).1 ≡ update_id read.id (f read) table) where
  pub for_each-touch :
      (selected : List Row) (live : Stats × List Row)
      → (for_each body selected live).1 ≡ map (touch f selected) live.1
  unfolding for_each
  for_each-touch [] live = sym (map_same live.1)
  for_each-touch (s ∷ selected) (st, table) =
      for_each-touch selected (body s (st, table))
      ∙ ap (map (touch f selected)) (updates s st table)
      ∙ map-update_id (touch f selected) (f s) s.id table

-- `touch` looks at the rows of `selected` under the row's own id alone.
module _ (f : Row → Row → Row) (keeps : (s r : Row) → (f s r).id ≡ r.id) where
  pub touch-matching_nil :
      (q : ℕ) (selected : List Row) (r : Row)
      → r.id ≡ q
      → matching q selected ≡ []
      → touch f selected r ≡ r
  touch-matching_nil q [] r k h = refl
  touch-matching_nil q (s ∷ selected) r k h = elim (Bool-cases (r.id == s.id)) [
    | inl e ↦ ground arith
    | inr e ↦ rw e (touch-matching_nil q selected r k (ground arith))
  ]

  pub touch-matching_one :
      (q : ℕ) (selected : List Row) (r s : Row)
      → r.id ≡ q
      → matching q selected ≡ s ∷ []
      → touch f selected r ≡ f s r
  touch-matching_one q [] r s k h = cc
  touch-matching_one q (x ∷ selected) r s k h = elim (Bool-cases (r.id == x.id)) [
    | inl e ↦
        let both : (x ≡ s) × (matching q selected ≡ []) = ground arith in
        rw e (touch-matching_nil q selected (f x r) (keeps x r ∙ k) both.1 ∙ ap (λ y. f y r) both.0)
    | inr e ↦ rw e (touch-matching_one q selected r s k (ground arith))
  ]

  -- The row is updated if the test that selected it holds of it, and is left alone if not.
  pub touch-selected :
      (p : Row → Bool) (read : Row) (selected : List Row) (r : Row)
      → r.id ≡ read.id
      → matching read.id selected ≡ (if p read then read ∷ [] else [])
      → touch f selected r ≡ (if p read then f read r else r)
  touch-selected p read selected r k h = elim (Bool-cases (p read)) [
    | inl e ↦ rw e (touch-matching_one read.id selected r read k (h ∙ rw e))
    | inr e ↦ rw e (touch-matching_nil read.id selected r k (h ∙ rw e))
  ]

matching-insert_ne :
    (b : Row → Row → Bool) (q : ℕ) (x : Row) (xs : List Row)
    → (x.id == q) ≡ false
    → matching q (insert b x xs) ≡ matching q xs
matching-insert_ne b q x [] h = rw h
matching-insert_ne b q x (y ∷ ys) h = ground (arith, matching-insert_ne b q x ys h)

matching-insert_self :
    (b : Row → Row → Bool) (q : ℕ) (x : Row) (xs : List Row)
    → (x.id == q) ≡ true
    → matching q xs ≡ []
    → matching q (insert b x xs) ≡ x ∷ []
matching-insert_self b q x [] h e = rw h
matching-insert_self b q x (y ∷ ys) h e = ground (arith, matching-insert_self b q x ys h)

-- Sorting does not change what is found under an id, where that is one row at most.
matching-order_by_nil :
    (b : Row → Row → Bool) (q : ℕ) (xs : List Row)
    → matching q xs ≡ []
    → matching q (order_by b xs) ≡ []
matching-order_by_nil b q [] h = refl
matching-order_by_nil b q (x ∷ xs) h = elim (Bool-cases (x.id == q)) [
  | inl e ↦ ground arith
  | inr e ↦ matching-insert_ne b q x (order_by b xs) e ∙ matching-order_by_nil b q xs (ground arith)
]

matching-order_by_one :
    (b : Row → Row → Bool) (q : ℕ) (s : Row) (xs : List Row)
    → matching q xs ≡ s ∷ []
    → matching q (order_by b xs) ≡ s ∷ []
matching-order_by_one b q s [] h = h
matching-order_by_one b q s (x ∷ xs) h = elim (Bool-cases (x.id == q)) [
  | inl e ↦
      let both : (x ≡ s) × (matching q xs ≡ []) = ground arith in
      matching-insert_self b q x (order_by b xs) e (matching-order_by_nil b q xs both.1)
      ∙ ap (λ y. y ∷ []) both.0
  | inr e ↦
      matching-insert_ne b q x (order_by b xs) e ∙ matching-order_by_one b q s xs (ground arith)
]

-- What is found under an id among the rows that pass a test.
matching-select :
    (p : Row → Bool) (q : ℕ) (xs : List Row) → matching q (select p xs) ≡ select p (matching q xs)
matching-select p q [] = refl
matching-select p q (x ∷ xs) = ground (arith, matching-select p q xs)

-- The rows that a SELECT with an order and a later test gives for the id of a row of the table.
pub matching-plan :
    (b : Row → Row → Bool) (p p' : Row → Bool) (r : Row) (table : List Row)
    → matching r.id table ≡ r ∷ []
    → matching r.id (select p' (order_by b (select p table))) ≡ (if p r && p' r then r ∷ [] else [])
matching-plan b p p' r table h = elim (Bool-cases (p r)) [
  | inl e ↦
      matching-select p' r.id (order_by b (select p table))
      ∙ ap (select p') (
          matching-order_by_one b r.id r (select p table)
            (matching-select p r.id table ∙ ap (select p) h ∙ rw e))
      ∙ rw e
  | inr e ↦
      matching-select p' r.id (order_by b (select p table))
      ∙ ap (select p') (
          matching-order_by_nil b r.id (select p table)
            (matching-select p r.id table ∙ ap (select p) h ∙ rw e))
      ∙ rw e
]

pub matching-ordered :
    (b : Row → Row → Bool) (p : Row → Bool) (r : Row) (table : List Row)
    → matching r.id table ≡ r ∷ []
    → matching r.id (order_by b (select p table)) ≡ (if p r then r ∷ [] else [])
matching-ordered b p r table h = elim (Bool-cases (p r)) [
  | inl e ↦ rw e (
      matching-order_by_one b r.id r (select p table)
        (matching-select p r.id table ∙ ap (select p) h ∙ rw e))
  | inr e ↦ rw e (
      matching-order_by_nil b r.id (select p table)
        (matching-select p r.id table ∙ ap (select p) h ∙ rw e))
]

matching-none : (q : ℕ) (xs : List Row) → any (λ s. s.id == q) xs ≡ false → matching q xs ≡ []
matching-none q [] h = refl
matching-none q (x ∷ xs) h = ground (arith, matching-none q xs)

matching-skip :
    (r : Row) (xs ys : List Row)
    → any (λ s. s.id == r.id) xs ≡ false
    → All (λ s. matching s.id ys ≡ s ∷ []) xs
    → All (λ s. matching s.id (r ∷ ys) ≡ s ∷ []) xs
matching-skip r [] ys h k = tt
matching-skip r (x ∷ xs) ys h k = (ground (arith, k.0), matching-skip r xs ys (ground arith) k.1)

-- Under unique ids each row is the only one under its id.
pub UniqueIds-matching :
    (table : List Row) → UniqueIds table → All (λ r. matching r.id table ≡ r ∷ []) table
UniqueIds-matching [] u = tt
UniqueIds-matching (r ∷ rs) u = (
  ground (arith, matching-none r.id rs u.0),
  matching-skip r rs rs u.0 (UniqueIds-matching rs u.1),
)

pub map_cong_All :
    (f g : Row → Row) (table : List Row) → All (λ r. f r ≡ g r) table → map f table ≡ map g table
map_cong_All f g [] h = refl
map_cong_All f g (r ∷ rs) h = rw (h.0, map_cong_All f g rs h.1)

pub All-imp {ℓ κ} :
    {P : Row → Type ℓ} {Q : Row → Type κ} (table : List Row)
    → ((r : Row) → P r → Q r)
    → All P table
    → All Q table
All-imp [] f h = tt
All-imp (r ∷ rs) f h = (f r h.0, All-imp rs f h.1)

-- The loop over `error_rows`, as three selections.
module _ (now : ℕ) where
  pub sort_errors-rows :
      (rs rows timeouts : List Row) (waiting : ℕ)
      → (sort_errors now rs rows timeouts waiting).0
        ≡ rows ++ select (λ r. is_retry (judge now r)) rs
  unfolding sort_errors
  sort_errors-rows [] rows timeouts waiting = sym (append-nil rows)
  sort_errors-rows (r ∷ rs) rows timeouts waiting = elim (Bool-cases (is_retry (judge now r))) [
    | inl e ↦ sort_errors-rows rs _ _ _ ∙ rw (e, append_assoc)
    | inr e ↦ sort_errors-rows rs _ _ _ ∙ rw e
  ]

  pub sort_errors-timeouts :
      (rs rows timeouts : List Row) (waiting : ℕ)
      → (sort_errors now rs rows timeouts waiting).1
        ≡ timeouts ++ select (λ r. is_tombstone_timeout (judge now r)) rs
  unfolding sort_errors
  sort_errors-timeouts [] rows timeouts waiting = sym (append-nil timeouts)
  sort_errors-timeouts (r ∷ rs) rows timeouts waiting =
      elim (Bool-cases (is_tombstone_timeout (judge now r))) [
        | inl e ↦ sort_errors-timeouts rs _ _ _ ∙ rw (e, append_assoc)
        | inr e ↦ sort_errors-timeouts rs _ _ _ ∙ rw e
      ]
