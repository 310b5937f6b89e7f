-- ===== src/Queue/Conflicts.antt =====
-- The row that an INSERT of extraction/queue.py conflicts with, the upsert, and the row read back.
use mathlib.Core.Path.{fun_ext}
use text.Mathlib.TextPositions.{eq_refl}
use mnemonic_os.Base.{
  ℕ, suc, ◌≡◌, refl, sym, ap, ◌∙◌, inl, inr, String, Bool, true, false, ◌&&◌, ◌||◌, Option, none,
  some, List, [], ◌∷◌, ◌++◌, arith, Bool-cases, any, find_where, update_where, sql_eq,
}
use mnemonic_os.Queue.{SourceKind, artifact, episode, session, Row, Table, kind_eq, row_to_item}
use mnemonic_os.Queue.Source.{ok, check_source, conflicts, select_queue_row}
use mnemonic_os.Queue.Enqueue.{Request, new_row, upsert_row, upsert, insert_and_read}

module _ {ℓ} {A : Type ℓ} (p : A → Bool) where
  find_where-append :
      (xs : List A) (y : A) → any p xs ≡ false → p y ≡ true → find_where p (xs ++ (y ∷ [])) ≡ some y
  find_where-append [] y none_yet h = rw h
  find_where-append (x ∷ xs) y none_yet h = ground (arith, find_where-append xs y)

  find_where-none : (xs : List A) → any p xs ≡ false → find_where p xs ≡ none
  find_where-none [] h = refl
  find_where-none (x ∷ xs) h = ground (arith, find_where-none xs)

  find_where-update_where :
      (f : A → A)
      → ((x : A) → p x ≡ true → p (f x) ≡ true)
      → (xs : List A) → any p xs ≡ true
      → (x : A) × (find_where p xs ≡ some x) × (find_where p (update_where p f xs) ≡ some (f x))
  find_where-update_where f keeps [] h = cc
  find_where-update_where f keeps (x ∷ xs) h = elim (Bool-cases (p x)) [
    | inl e ↦ (x, rw e, rw (e, keeps x e))
    | inr e ↦
        let (y, before, after) = find_where-update_where f keeps xs (ground arith) in
        (y, rw e before, rw (e, e) after)
  ]

  any-update_where :
      (f : A → A)
      → ((x : A) → p x ≡ true → p (f x) ≡ true)
      → (xs : List A) → any p (update_where p f xs) ≡ any p xs
  any-update_where f keeps [] = refl
  any-update_where f keeps (x ∷ xs) = ground (arith, keeps x, any-update_where f keeps xs)

  any-append : (xs : List A) (y : A) → p y ≡ true → any p (xs ++ (y ∷ [])) ≡ true
  any-append [] y h = rw h
  any-append (x ∷ xs) y h = ground (arith, any-append xs y)

-- The two ways of finding a row by its source are one, for a source that passes the CHECK.
select-conflicts :
    (kind : SourceKind) (a c e : Option String) (rows : List Row)
    → check_source kind a c e ≡ true
    → select_queue_row kind a c e rows ≡ find_where (conflicts kind a c e) rows
unfolding select_queue_row conflicts check_source
select-conflicts kind (some a) none none rows h =
    ap (λ p. find_where p rows) (fun_ext (λ r. ground arith))
select-conflicts kind none (some c) (some e) rows h =
    ap (λ p. find_where p rows) (fun_ext (λ r. ground arith))
select-conflicts kind (some a) (some c) e rows h = ground arith
select-conflicts kind (some a) none (some e) rows h = ground arith
select-conflicts kind none none e rows h = ground arith
select-conflicts kind none (some c) none rows h = ground arith

self_match :
    (k : SourceKind) (a c e : Option String)
    → check_source k a c e ≡ true
    → (kind_eq k k && (sql_eq a a || (sql_eq c c && sql_eq e e))) ≡ true
unfolding check_source
self_match artifact (some a) none none h = simp eq_refl
self_match session (some a) none none h = simp eq_refl
self_match episode none (some c) (some e) h = simp eq_refl
self_match k a c e h = cc

module _ (now id : ℕ) (kind : SourceKind) (req : Request) where
  abbrev pub clash : Row → Bool
  clash = conflicts kind req.archive_id req.conversation_id req.episode_id

  abbrev pub fresh : Row
  fresh = new_row now id kind req

  -- A new row is found under its own source.
  clash-fresh :
      check_source kind req.archive_id req.conversation_id req.episode_id ≡ true
      → clash fresh ≡ true
  unfolding conflicts new_row
  clash-fresh h = self_match kind req.archive_id req.conversation_id req.episode_id h

  clash-upsert_row : (new r : Row) → clash r ≡ true → clash (upsert_row new r) ≡ true
  unfolding conflicts upsert_row
  clash-upsert_row new r h = h

-- The row that `enqueue_extraction` answers with: the new one, or the old one after the update.
abbrev pub queued_row : Row → Option Row → Row
queued_row new none = new
queued_row new (some r) = upsert_row new r

module _ (now : ℕ) (kind : SourceKind) (req : Request) (t : Table)
    (passes : check_source kind req.archive_id req.conversation_id req.episode_id ≡ true) where
  abbrev taken : Bool
  taken = any (clash now t.next_id kind req) t.rows

  upsert-fresh :
      taken ≡ false
      → upsert (fresh now t.next_id kind req) t
        ≡ record { rows = t.rows ++ (fresh now t.next_id kind req ∷ []); next_id = suc t.next_id }
  unfolding upsert new_row
  upsert-fresh h = rw h

  pub upsert-taken :
      taken ≡ true
      → upsert (fresh now t.next_id kind req) t ≡ record t {
        rows =
            update_where
              (clash now t.next_id kind req)
              (upsert_row (fresh now t.next_id kind req))
              t.rows;
      }
  unfolding upsert new_row
  upsert-taken h = rw h

  abbrev found : List Row → Option Row
  found = select_queue_row kind req.archive_id req.conversation_id req.episode_id

  found_by_clash : (rows : List Row) → found rows ≡ find_where (clash now t.next_id kind req) rows
  found_by_clash rows =
      select-conflicts kind req.archive_id req.conversation_id req.episode_id rows passes

  -- The upsert turns the row that is found before into the row that is found after.
  found-upsert :
      found (upsert (fresh now t.next_id kind req) t).rows
      ≡ some (queued_row (fresh now t.next_id kind req) (found t.rows))
  found-upsert = elim (Bool-cases taken) [
    | inl e ↦
        let (r, before, after) =
          find_where-update_where (clash now t.next_id kind req)
            (upsert_row (fresh now t.next_id kind req))
            (clash-upsert_row now t.next_id kind req (fresh now t.next_id kind req)) t.rows e in
        rw (upsert-taken e) (
          found_by_clash _
          ∙ after
          ∙ ap (λ o. some (queued_row (fresh now t.next_id kind req) o))
              (sym (found_by_clash t.rows ∙ before)))
    | inr e ↦ rw (upsert-fresh e) (
        found_by_clash _
        ∙ find_where-append (clash now t.next_id kind req) t.rows (fresh now t.next_id kind req) e
            (clash-fresh now t.next_id kind req passes)
        ∙ ap (λ o. some (queued_row (fresh now t.next_id kind req) o))
            (sym (found_by_clash t.rows ∙ find_where-none (clash now t.next_id kind req) t.rows e)))
  ]

  pub insert_and_read-eq :
      (insert_and_read now kind req t).0
      ≡ ok (row_to_item (queued_row (fresh now t.next_id kind req) (found t.rows)))
  unfolding insert_and_read
  insert_and_read-eq = rw found-upsert

  pub clash-upserted :
      any (clash now t.next_id kind req) (upsert (fresh now t.next_id kind req) t).rows ≡ true
  clash-upserted = elim (Bool-cases taken) [
    | inl e ↦ rw (upsert-taken e) (
        any-update_where (clash now t.next_id kind req) (upsert_row (fresh now t.next_id kind req))
          (clash-upsert_row now t.next_id kind req (fresh now t.next_id kind req)) t.rows
        ∙ e)
    | inr e ↦ rw (upsert-fresh e) (
        any-append (clash now t.next_id kind req) t.rows (fresh now t.next_id kind req)
          (clash-fresh now t.next_id kind req passes))
  ]
