-- ===== src/Orchestrator/StableIds.antt =====
-- The ids of a packet that render_emission (emission.py) lists.
use mnemonic_os.Base.{
  ◌≡◌, refl, ◌∙◌, Bool, true, false, not, ◌||◌, List, [], ◌∷◌, ◌++◌, arith, All, if-cases, select,
  Text, text_eq, member, member-append, Distinct,
}
use mnemonic_os.Base.Sorting.{select-not-All}
use mnemonic_os.Orchestrator.Packet.{
  MemoryPacket, Resolved, append_new, packet_stable_ids, memory_ids, all_packet_memories,
  branch_items,
}
use mnemonic_os.Orchestrator.Emission.{Patterns, RetryArguments, render_emission}

text_eq_other : (a b : Text) → text_eq a b ≡ false → text_eq b a ≡ false
text_eq_other [] [] h = h
text_eq_other [] (_ ∷ _) h = refl
text_eq_other (_ ∷ _) [] h = refl
text_eq_other (x ∷ a) (y ∷ b) h = ground (arith, text_eq_other a b)

append-Distinct :
    (ids : List Text) (x : Text) → Distinct ids → member x ids ≡ false → Distinct (ids ++ (x ∷ []))
append-Distinct [] x h new = (refl, tt)
append-Distinct (y ∷ ys) x (apart, h) new =
    let (other, later) = or_false (text_eq x y) (member x ys) new in
    (
      member-append y ys (x ∷ []) ∙ rw (apart, text_eq_other x y other),
      append-Distinct ys x h later,
    )
  where
    or_false : (a b : Bool) → (a || b) ≡ false → (a ≡ false) × (b ≡ false)
    or_false false b e = (refl, e)
    or_false true b e = cc

append_new-Distinct : (xs ids : List Text) → Distinct ids → Distinct (append_new ids xs)
unfolding append_new
append_new-Distinct [] ids h = h
append_new-Distinct (x ∷ xs) ids h =
    if-cases Distinct (member x ids) (λ e. append_new-Distinct xs ids h)
      (λ e. append_new-Distinct xs (ids ++ (x ∷ [])) (append-Distinct ids x h e))

module _ (p : Text → Bool) where
  member-select : (x : Text) (xs : List Text) → member x xs ≡ false → member x (select p xs) ≡ false
  member-select x [] h = refl
  member-select x (y ∷ ys) h = ground (arith, member-select x ys)

  select-Distinct : (xs : List Text) → Distinct xs → Distinct (select p xs)
  select-Distinct [] h = tt
  select-Distinct (x ∷ xs) (apart, h) =
      if-cases Distinct (p x) (λ e. (member-select x xs apart, select-Distinct xs h))
        (λ e. select-Distinct xs h)

packet_stable_ids-Distinct : (p : MemoryPacket) → Distinct (packet_stable_ids p)
unfolding packet_stable_ids
packet_stable_ids-Distinct p =
    append_new-Distinct (memory_ids (all_packet_memories p) ++ branch_items p.assessment_reservoir)
      [] tt

-- An emission lists each stable id once, and each new id once; no new id is among the ids of the
-- pass before it.
pub render_emission-Distinct :
    (re : Patterns) (result : Resolved) (text : Text) (args : RetryArguments)
    → let e = render_emission re result text args in
      Distinct e.stable_ids
      × Distinct e.new_ids
      × All (λ id. member id args.previous_ids ≡ false) e.new_ids
unfolding render_emission
render_emission-Distinct re result text args =
    let ids = packet_stable_ids result.memory_packet in
    let apart = packet_stable_ids-Distinct result.memory_packet in
    let is_old = λ (id : Text). member id args.previous_ids in
    (apart, select-Distinct (λ id. not (is_old id)) ids apart, select-not-All is_old ids)
