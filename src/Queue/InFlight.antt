-- ===== src/Queue/InFlight.antt =====
-- What `enqueue_extraction` of extraction/queue.py does to the rows that workers hold.
use mnemonic_os.Base.{
  ℕ, ◌≡◌, refl, ap, inl, inr, Bool, true, false, ◌&&◌, List, [], ◌∷◌, ◌++◌, arith, Bool-cases, ◌==◌,
  if◌then◌else◌, any, count_where, count_where-update_where,
}
use mnemonic_os.Queue.{SourceKind, Row, Table, is_processing}
use mnemonic_os.Queue.Source.{
  Result, ok, raised, check_failed, validate_source, check_source, conflicts,
}
use mnemonic_os.Queue.Enqueue.{
  Request, new_row, upsert_row, upsert_status, upsert, insert_and_read, enqueue_extraction,
}

processing-upsert_row :
    (new r : Row) → is_processing (upsert_row new r).status ≡ is_processing r.status
unfolding upsert_row upsert_status
processing-upsert_row new r = ground arith

count_where-append_one :
    (p : Row → Bool) (rows : List Row) (r : Row)
    → p r ≡ false
    → count_where p (rows ++ (r ∷ [])) ≡ count_where p rows
count_where-append_one p [] r h = rw h
count_where-append_one p (x ∷ rows) r h = ground (arith, count_where-append_one p rows r h)

-- A row of this id that a worker holds.
abbrev pub in_flight : ℕ → Row → Bool
in_flight q r = r.id == q && is_processing r.status

fresh_idle :
    (now id : ℕ) (kind : SourceKind) (req : Request) (q : ℕ)
    → in_flight q (new_row now id kind req) ≡ false
unfolding new_row
fresh_idle now id kind req q = ground arith

upsert-in_flight :
    (q : ℕ) (new : Row) (t : Table)
    → in_flight q new ≡ false
    → count_where (in_flight q) (upsert new t).rows ≡ count_where (in_flight q) t.rows
unfolding upsert
upsert-in_flight q new t idle =
    elim (Bool-cases
      (any (conflicts new.source_kind new.archive_id new.conversation_id new.episode_id) t.rows)) [
        | inl e ↦ rw e (
            count_where-update_where (in_flight q) _ (upsert_row new)
              (λ r h. unfold upsert_row in ap (λ b. r.id == q && b) (processing-upsert_row new r))
              t.rows)
        | inr e ↦ rw e (count_where-append_one (in_flight q) t.rows new idle)
      ]

-- Enqueueing, whether it succeeds or raises, takes no row out of processing and puts none in: a
-- worker keeps the item that it has claimed.
pub enqueue_extraction-processing :
    (now : ℕ) (req : Request) (t : Table) (q : ℕ)
    → count_where (in_flight q) (enqueue_extraction now req t).1.rows
      ≡ count_where (in_flight q) t.rows
unfolding enqueue_extraction insert_and_read
enqueue_extraction-processing now req t q =
    by_validation
      (validate_source req.source_kind req.archive_id req.conversation_id req.episode_id) refl
  where
    by_check :
        (kind : SourceKind) (b : Bool)
        → count_where
            (in_flight q)
            (if b then insert_and_read now kind req t else (raised check_failed, t)).1.rows
          ≡ count_where (in_flight q) t.rows
    by_check kind true =
        upsert-in_flight q (new_row now t.next_id kind req) t (fresh_idle now t.next_id kind req q)
    by_check kind false = refl

    by_validation :
        (v : Result SourceKind)
        → validate_source req.source_kind req.archive_id req.conversation_id req.episode_id ≡ v
        → count_where (in_flight q) (enqueue_extraction now req t).1.rows
          ≡ count_where (in_flight q) t.rows
    by_validation (ok kind) e =
        rw (e, enqueue_extraction)
          (by_check kind (check_source kind req.archive_id req.conversation_id req.episode_id))
    by_validation (raised f) e = rw (e, enqueue_extraction)
