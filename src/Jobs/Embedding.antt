-- ===== src/Jobs/Embedding.antt =====
-- What the loop of `_embed_backfill` (jobs.py) leaves when an embedding fails.
use mnemonic_os.Base.{
  ℕ, ◌+◌, ◌≡◌, refl, ap, ◌⊎◌, inl, inr, Text, Bool, false, Option, none, some, List, [], ◌∷◌, ◌++◌,
  arith, length,
}
use mnemonic_os.Jobs.Ledger.{num, Stats, Outcome, returned, raised}
use mnemonic_os.Jobs.Callees.{Callees}
use mnemonic_os.Jobs.Run.{embed_each, embed_chunks}

abbrev pub embedded : ℕ → Stats
embedded n = ("archive_chunks_embedded", num n) ∷ []

module _ {S : Type 0} (c : Callees S) where
  -- The calls that embed some chunks, one after the other, have all returned: from a state to another.
  pub data Embeds : List ℕ → S → S → Type 0 where
    none_left : {s : S} → Embeds [] s s
    one_more :
        {x : ℕ} {xs : List ℕ} {s t : S}
        → (c.embed_chunk x s).0 ≡ returned tt
        → Embeds xs (c.embed_chunk x s).1 t
        → Embeds (x ∷ xs) s t

  -- The first call to raise, after some chunks that were embedded.
  abbrev pub FailsAfter : List ℕ → List ℕ → S → Text → Type 0
  FailsAfter chunks done s e =
      (x : ℕ) × (rest : List ℕ) × (t : S) × (chunks ≡ done ++ (x ∷ rest))
      × Embeds done s t
      × ((c.embed_chunk x t).0 ≡ raised e)

module _ {S : Type 0} (now : ℕ) (c : Callees S) (dry_run : Bool) where
  -- How the loop ends that has embedded `n` chunks before the `chunks` it is given.
  abbrev Ends : ℕ → List ℕ → S → S → (ℕ × Option Text) × S → Type 0
  Ends n chunks before s ((k, failure), after) =
      ((failure ≡ none) × (k ≡ n + length chunks) × Embeds c chunks s after)
      ⊎ ((e : Text) × (done : List ℕ) × (failure ≡ some e)
          × FailsAfter c chunks done s e
          × (k ≡ n + length done)
          × (after ≡ before))

  embedded_first :
      (n x : ℕ) (chunks : List ℕ) (before s : S) (r : (ℕ × Option Text) × S)
      → (c.embed_chunk x s).0 ≡ returned tt
      → Ends (n + 1) chunks before (c.embed_chunk x s).1 r
      → Ends n (x ∷ chunks) before s r
  embedded_first n x chunks before s r h (inl (f, k, all)) =
      inl (f, omega (arith, k), one_more h all)
  embedded_first n x chunks before s r h
        (inr (e, done, f, (y, rest, t, split, some_done, raises), k, kept)) =
      inr (
        e,
        x ∷ done,
        f,
        (y, rest, t, ap (λ ys. x ∷ ys) split, one_more h some_done, raises),
        omega (arith, k),
        kept,
      )

  embed_each-Ends :
      (chunks : List ℕ) (n : ℕ) (before s : S)
      → Ends n chunks before s (embed_each now c dry_run chunks n before s)
  unfolding embed_each
  embed_each-Ends [] n before s = inl (refl, omega arith, none_left)
  embed_each-Ends (x ∷ chunks) n before s =
      go (c.embed_chunk x s).0 refl (embed_each-Ends chunks (n + 1) before (c.embed_chunk x s).1)
    where
      go :
          (r : Outcome (Unit {0}))
          → (c.embed_chunk x s).0 ≡ r
          → Ends
              (n + 1)
              chunks
              before
              (c.embed_chunk x s).1
              (embed_each now c dry_run chunks (n + 1) before (c.embed_chunk x s).1)
          → Ends n (x ∷ chunks) before s (embed_each now c dry_run (x ∷ chunks) n before s)
      go (returned a) e rest = rw (e, embed_each) (embedded_first n x chunks before s _ e rest)
      go (raised x') e rest =
          rw (e, embed_each)
            (inr (x', [], refl, (x, chunks, s, refl, none_left, e), omega arith, refl))

-- A live run of the backfill whose provider is built has one of two ends. Every call that embeds a
-- chunk has returned, in their order; the stats count them all, and the state is the one after them.
-- Or the calls for the first chunks have returned and the next one has raised: the run fails with
-- its exception, the state is the one before the loop, and the stats still count the chunks before
-- that call, although what they wrote is rolled back.
pub embed_chunks-AllOrNothing :
    {S : Type 0} (now : ℕ) (c : Callees S) (chunks : List ℕ) (s : S)
    → (c.build_provider s).0 ≡ returned tt
    → let before = (c.build_provider s).1 in
      let (ran, after) = embed_chunks now c false chunks s in
      ((ran.failure ≡ none) × (ran.stats ≡ embedded (length chunks)) × Embeds c chunks before after)
      ⊎ ((e : Text) × (done : List ℕ) × (ran.failure ≡ some e)
          × FailsAfter c chunks done before e
          × (ran.stats ≡ embedded (length done))
          × (after ≡ before))
unfolding embed_chunks
embed_chunks-AllOrNothing {S = S} now c chunks s built =
    let s' = (c.build_provider s).1 in
    rw (built, embed_chunks)
      (report (embed_each now c false chunks 0 s' s') (embed_each-Ends now c false chunks 0 s' s'))
  where
    report :
        (r : (ℕ × Option Text) × S)
        → Ends now c false 0 chunks (c.build_provider s).1 (c.build_provider s).1 r
        → ((r.0.1 ≡ none)
            × (embedded r.0.0 ≡ embedded (length chunks))
            × Embeds c chunks (c.build_provider s).1 r.1)
          ⊎ ((e : Text) × (done : List ℕ) × (r.0.1 ≡ some e)
              × FailsAfter c chunks done (c.build_provider s).1 e
              × (embedded r.0.0 ≡ embedded (length done))
              × (r.1 ≡ (c.build_provider s).1))
    report r (inl (f, k, all)) = inl (f, ap embedded (omega (arith, k)), all)
    report r (inr (e, done, f, fails, k, kept)) =
        inr (e, done, f, fails, ap embedded (omega (arith, k)), kept)
