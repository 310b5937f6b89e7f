-- ===== src/Identity/Best.antt =====
-- What the loop over the candidates in classify_post_parse_identity (artifact_identity.py) keeps.
use mathlib.Core.List.{Mem, mem-cons_self, mem-cons_of_mem}
use mnemonic_os.Base.{
  ℕ, ◌≡◌, refl, ap, ◌∙◌, subst, none, ◌⊎◌, inl, inr, Bool, true, false, ◌||◌, some, List, [], ◌∷◌,
  if-cases, any, Text, codes,
}
use mnemonic_os.Identity.Overlap.{Ratio, above, at_least}
use mnemonic_os.Identity.Classify.{
  Best, Scored, takes_overlap, effective, consider, best_of, no_best, result_of, has_id,
}

-- A candidate whose overlap is related and above its Jaccard score.
abbrev pub by_overlap : Scored → Bool
by_overlap (id, (score, overlap)) = takes_overlap score overlap

consider-marks :
    (id : Text) (score : Ratio) (overlap : Ratio × Bool) (b : Best)
    → (consider id score overlap b).overlap_related
      ≡ (b.overlap_related || takes_overlap score overlap)
unfolding consider
consider-marks id score overlap b =
    let marked = b.overlap_related || takes_overlap score overlap in
    if-cases (λ (x : Best). x.overlap_related ≡ marked) (above (effective score overlap) b.score)
      (λ _. refl) (λ _. refl)

best_of-marks :
    (cs : List Scored) (b : Best)
    → (best_of cs b).overlap_related ≡ (b.overlap_related || any by_overlap cs)
unfolding best_of
best_of-marks [] b = or_nothing b.overlap_related
  where
    or_nothing : (x : Bool) → x ≡ (x || false)
    or_nothing true = refl
    or_nothing false = refl
best_of-marks ((id, (score, overlap)) ∷ cs) b =
    best_of-marks cs (consider id score overlap b)
    ∙ ap (λ x. x || any by_overlap cs) (consider-marks id score overlap b)
    ∙ or_assoc b.overlap_related (takes_overlap score overlap) (any by_overlap cs)
  where
    or_assoc : (x y z : Bool) → ((x || y) || z) ≡ (x || (y || z))
    or_assoc true y z = refl
    or_assoc false y z = refl

-- Where a best candidate comes from: it is the one before the loop, or a candidate with the score
-- that counts for it.
abbrev FromLoop : List Scored → Best → Best → Type 0
FromLoop cs b b' =
    ((b'.id ≡ b.id) × (b'.score ≡ b.score))
    ⊎ ((x : Scored) × Mem x cs × (b'.id ≡ some x.0) × (b'.score ≡ effective x.1.0 x.1.1))

later : (x : Scored) (cs : List Scored) (b b' : Best) → FromLoop cs b b' → FromLoop (x ∷ cs) b b'
later x cs b b' (inl same) = inl same
later x cs b b' (inr (y, m, i, s)) = inr (y, mem-cons_of_mem _ m, i, s)

consider-FromLoop :
    (id : Text) (score : Ratio) (overlap : Ratio × Bool) (cs : List Scored) (b b' : Best)
    → FromLoop cs (consider id score overlap b) b'
    → FromLoop ((id, (score, overlap)) ∷ cs) b b'
unfolding consider
consider-FromLoop id score overlap cs b b' (inr (y, m, i, s)) = inr (y, mem-cons_of_mem _ m, i, s)
consider-FromLoop id score overlap cs b b' (inl same) =
    if-cases
      (λ (c : Best).
        (b'.id ≡ c.id) × (b'.score ≡ c.score) → FromLoop ((id, (score, overlap)) ∷ cs) b b')
      (above (effective score overlap) b.score)
      (λ _ (e, s). inr ((id, (score, overlap)), mem-cons_self, e, s)) (λ _ kept. inl kept) same

best_of-FromLoop : (cs : List Scored) (b : Best) → FromLoop cs b (best_of cs b)
unfolding best_of
best_of-FromLoop [] b = inl (refl, refl)
best_of-FromLoop ((id, (score, overlap)) ∷ cs) b =
    consider-FromLoop id score overlap cs b (best_of cs (consider id score overlap b))
      (best_of-FromLoop cs (consider id score overlap b))

chosen :
    (cs : List Scored) (b : Best)
    → has_id b.id ≡ true
    → FromLoop cs no_best b
    → (x : Scored) × Mem x cs × (b.id ≡ some x.0) × (b.score ≡ effective x.1.0 x.1.1)
chosen cs b h (inl (e, _)) =
    let clash : has_id none ≡ true = subst (λ i. has_id i ≡ true) e h in absurd cc
chosen cs b h (inr found) = found

-- As soon as one candidate scores by its overlap, the artifact is classed as overlap related with
-- whatever candidate is the best, if that scores 0.60 or more: also where the best one scores by its
-- shingles alone, and also at 0.95 and above. The canonical artifact that the result names is that
-- best candidate, one of the list, and the confidence is the score that counts for it: its overlap
-- where that is related and above its Jaccard score, that score otherwise.
pub result_of-overlap :
    (fingerprint : Text) (cs : List Scored) (n : ℕ)
    → any by_overlap cs ≡ true
    → has_id (best_of cs no_best).id ≡ true
    → at_least 60 100 (best_of cs no_best).score ≡ true
    → let r = result_of fingerprint (best_of cs no_best) n in
      (r.duplicate_state ≡ codes "overlap_related")
      × ((best : Scored) × Mem best cs
          × ((best_of cs no_best).id ≡ some best.0)
          × (r.canonical_archive_id ≡ some best.0)
          × (r.duplicate_confidence ≡ some (effective best.1.0 best.1.1)))
unfolding result_of
result_of-overlap fingerprint cs n some_overlap found high =
    let marked = best_of-marks cs no_best ∙ some_overlap in
    let (best, m, id, score) = chosen cs (best_of cs no_best) found (best_of-FromLoop cs no_best) in
    rw (found, marked, high) (refl, (best, m, id, id, ap some score))
