-- ===== src/Orchestrator/Passes.antt =====
-- How often begin_task and mark_failure (orchestrator.py) ask for memory.
use mnemonic_os.Base.{
  ◌<◌, ltb, ◌≡◌, refl, subst, ◌⊎◌, inl, inr, Bool, true, false, ◌&&◌, Option, none, some, arith,
  if-cases, length, Text, is_empty,
}
use mnemonic_os.Jobs.Ledger.{Outcome, returned, raised}
use mnemonic_os.Orchestrator.Packet.{Resolved}
use mnemonic_os.Orchestrator.Emission.{Emission, render_emission, should_auto_retry}
use mnemonic_os.Orchestrator.Requests.{
  TaskRequest, OrchestratorConfig, FailureRequest, Recorded, retries_allowed,
}
use mnemonic_os.Orchestrator.Results.{ContextResult, with_cutoff}
use mnemonic_os.Orchestrator.Task.{
  Runtime, first_emission, retry_emission, cutoff_of, after_two_passes, second_result, first_result,
  retries, focused_query_of, begin_task, refresh_request, after_record, failure_record,
  mark_failure, resolve_request, after_one_pass,
}

-- The passes of a result: one; or two, where the request asks for a retry and the limit allows one,
-- and the emission of the second asks for no other.
abbrev pub Passes : OrchestratorConfig → TaskRequest → ContextResult → Type 0
Passes cfg req r =
    (length r.retrieval_passes ≡ r.final_pass_index)
    × ((r.final_pass_index ≡ 1)
        ⊎ ((r.final_pass_index ≡ 2)
            × (req.auto_retry ≡ true)
            × (0 < retries_allowed cfg req)
            × (should_auto_retry r.emission ≡ false)))

abbrev pub Answered : {S : Type 0} → (ContextResult → Type 0) → Outcome ContextResult × S → Type 0
Answered P (raised e, s) = Unit
Answered P (returned r, s) = P r

allowed_parts : (a b c d : Bool) → (a && (b && (c && d))) ≡ true → (a ≡ true) × (c ≡ true)
allowed_parts a b c d h = ground arith

with_cutoff-stops :
    (reason : Option Text) (e : Emission)
    → e.retry_control.auto_retry_allowed ≡ false
    → (with_cutoff reason e).retry_control.auto_retry_allowed ≡ false
unfolding with_cutoff
with_cutoff-stops none e h = h
with_cutoff-stops (some reason) e h =
    if-cases (λ (x : Emission). x.retry_control.auto_retry_allowed ≡ false) (is_empty reason)
      (λ _. h) (λ _. h)

not_allowed :
    (e : Emission) → e.retry_control.auto_retry_allowed ≡ false → should_auto_retry e ≡ false
unfolding should_auto_retry
not_allowed e h = rw h

module _ {S : Type 0} (rt : Runtime S) (cfg : OrchestratorConfig) (req : TaskRequest) where
  retries-allowed :
      (result : Resolved) (q : Text)
      → retries rt cfg req result q ≡ true
      → (req.auto_retry ≡ true) × (0 < retries_allowed cfg req)
  unfolding should_auto_retry first_emission render_emission
  retries-allowed result q h =
      let (asked, some_left) =
        allowed_parts req.auto_retry _ (ltb 0 (retries_allowed cfg req)) _
          (and_first (should_auto_retry (first_emission rt cfg req result)) _ h) in
      (asked, ground (arith, some_left))
    where
      and_first : (a b : Bool) → (a && b) ≡ true → a ≡ true
      and_first true b e = refl
      and_first false b e = cc

  second_result-Passes :
      (result : Resolved) (q : Text) (o : Outcome Resolved × S)
      → retries rt cfg req result q ≡ true
      → Answered (Passes cfg req) (second_result rt cfg req result q o)
  unfolding after_two_passes retry_emission render_emission
  second_result-Passes result q (raised e, s) h = tt
  second_result-Passes result q (returned retried, s) h =
      let (asked, some_left) = retries-allowed result q h in
      (
        refl,
        inr (
          refl,
          asked,
          some_left,
          not_allowed _ (with_cutoff-stops (cutoff_of rt cfg req result q retried) _ refl),
        ),
      )

  first_result-Passes :
      (o : Outcome Resolved × S) → Answered (Passes cfg req) (first_result rt cfg req o)
  first_result-Passes (raised e, s) = tt
  first_result-Passes (returned result, s) =
      let q = focused_query_of (first_emission rt cfg req result).followup_query in
      if-cases (Answered (Passes cfg req)) (retries rt cfg req result q)
        (λ e. second_result-Passes result q (rt.resolve_task_context _ s) e) (λ e. (refl, inl refl))

  begin_task-Answered : (s : S) → Answered (Passes cfg req) (begin_task rt cfg req s)
  unfolding begin_task
  begin_task-Answered s = first_result-Passes (rt.resolve_task_context _ s)

-- A task that begins with an answer has one retrieval pass; or two, where its request allows retries
-- by itself, the limit that holds for it is not zero, and the second emission asks for no third.
pub begin_task-Passes :
    {S : Type 0} (rt : Runtime S) (cfg : OrchestratorConfig) (req : TaskRequest) (s s' : S)
    (r : ContextResult)
    → begin_task rt cfg req s ≡ (returned r, s')
    → Passes cfg req r
begin_task-Passes rt cfg req s s' r h =
    subst (Answered (Passes cfg req)) h (begin_task-Answered rt cfg req s)

-- A result that comes from one resolution of the context of a failure, from a state.
abbrev pub ResolvedOnce :
    {S : Type 0}
    → Runtime S
    → OrchestratorConfig
    → FailureRequest
    → S
    → Outcome ContextResult × S
    → Type 0
ResolvedOnce rt cfg req t o =
    let asked =
      rt.resolve_task_context (resolve_request rt cfg (refresh_request req) req.failure_text) t in
    (o.1 ≡ asked.1)
    × (((e : Text) × (asked.0 ≡ raised e) × (o.0 ≡ raised e))
        ⊎ ((resolved : Resolved) × (r : ContextResult) × (asked.0 ≡ returned resolved)
            × (o.0 ≡ returned r)
            × (length r.retrieval_passes ≡ 1)))

begin_task-ResolvedOnce :
    {S : Type 0} (rt : Runtime S) (cfg : OrchestratorConfig) (req : FailureRequest) (t : S)
    → ResolvedOnce rt cfg req t (begin_task rt cfg (refresh_request req) t)
unfolding begin_task refresh_request should_auto_retry first_emission render_emission
begin_task-ResolvedOnce rt cfg req t =
    go (rt.resolve_task_context (resolve_request rt cfg (refresh_request req) req.failure_text) t)
  where
    go :
        (o : Outcome Resolved × _)
        → (((first_result rt cfg (refresh_request req) o).1 ≡ o.1)
            × (((e : Text) × (o.0 ≡ raised e)
                  × ((first_result rt cfg (refresh_request req) o).0 ≡ raised e))
                ⊎ ((resolved : Resolved) × (r : ContextResult) × (o.0 ≡ returned resolved)
                    × ((first_result rt cfg (refresh_request req) o).0 ≡ returned r)
                    × (length r.retrieval_passes ≡ 1))))
    go (raised e, s) = (refl, inl (e, refl, refl))
    go (returned resolved, s) = (
      refl,
      inr (resolved, after_one_pass rt cfg (refresh_request req) resolved, refl, refl, refl),
    )

-- After a failure, one of three things has happened. Recording it has raised, and `mark_failure`
-- raises the same with the state that recording left: nothing is resolved. Or it is recorded, and the
-- context is resolved once, in the state that recording left: where that raises, `mark_failure` does,
-- and where it returns, there is an answer of one pass, whatever the configured limit is. Both leave
-- the state of that one resolution.
pub mark_failure-once :
    {S : Type 0} (rt : Runtime S) (cfg : OrchestratorConfig) (req : FailureRequest) (s : S)
    → ((e : Text) × (t : S) × (rt.record_outcome (failure_record req) s ≡ (raised e, t))
        × (mark_failure rt cfg req s ≡ (raised e, t)))
      ⊎ ((recorded : Recorded) × (t : S) × (rt.record_outcome (failure_record req) s
            ≡ (returned recorded, t))
          × ResolvedOnce rt cfg req t (mark_failure rt cfg req s))
unfolding mark_failure
mark_failure-once rt cfg req s = go (rt.record_outcome (failure_record req) s) refl
  where
    go :
        (o : Outcome Recorded × _)
        → rt.record_outcome (failure_record req) s ≡ o
        → ((e : Text) × (t : _) × (rt.record_outcome (failure_record req) s ≡ (raised e, t))
            × (after_record rt cfg req o ≡ (raised e, t)))
          ⊎ ((recorded : Recorded) × (t : _) × (rt.record_outcome (failure_record req) s
                ≡ (returned recorded, t))
              × ResolvedOnce rt cfg req t (after_record rt cfg req o))
    go (raised e, t) h = inl (e, t, h, refl)
    go (returned recorded, t) h = inr (recorded, t, h, begin_task-ResolvedOnce rt cfg req t)
