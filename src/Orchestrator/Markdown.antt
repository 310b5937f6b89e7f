-- ===== src/Orchestrator/Markdown.antt =====
-- emission.py: render_single_markdown and render_composed_markdown.
use mnemonic_os.Base.{
  ℕ, leb, ◌==◌, Bool, true, false, not, ◌&&◌, ◌||◌, Option, none, some, List, [], ◌∷◌, ◌++◌, take,
  length, Text, codes, text_eq, is_empty, or_text, member, decimal, starts_with, if◌then◌else◌,
}
use mnemonic_os.Chunking.Terms.{join}
use mnemonic_os.Chunking.Windows.{reverse}
use mnemonic_os.Orchestrator.Packet.{RuntimeMemory, Contradiction}
use mnemonic_os.Orchestrator.Emission.{Emission, FollowupQuery}

-- An element of `retrieval_passes`, as it is rendered.
pub record PassLine : Type 0 where
  pub pass_index : ℕ
  pub query_id : ℕ
  pub followup_query : Option FollowupQuery
  pub new_ids : List Text
  pub emission_new_ids : List Text
  pub cutoff_reason : Option Text

abbrev line : Text → Text → Text → Text
line before value after = before ++ (value ++ after)

-- `- name: `value``
abbrev item : Text → Text → Text
item name value = codes "- " ++ (name ++ (codes ": `" ++ (value ++ codes "`")))

abbrev item_if_set : Text → Text → List Text
item_if_set name value = if is_empty value then [] else (item name value ∷ [])

abbrev bullets : List Text → List Text
bullets [] = []
bullets (x ∷ xs) = (codes "- " ++ x) ∷ bullets xs

-- A heading over bullets, where there are any.
abbrev section : Text → List Text → List Text
section heading [] = []
section heading (x ∷ xs) = heading ∷ [] ∷ (bullets (x ∷ xs) ++ ([] ∷ []))

abbrev flag_in : List Text → Option Text → Option Text
flag_in states none = none
flag_in states (some s) = if member s states then some s else none

abbrev shown_flag : Option Text → Option Text → Text
shown_flag (some s) _ = codes " [" ++ (s ++ codes "]")
shown_flag none (some s) = codes " [" ++ (s ++ codes "]")
shown_flag none none = []

unfoldable pub memory_lines : RuntimeMemory → List Text
memory_lines m =
    let flag =
      shown_flag
        (flag_in (codes "stale" ∷ codes "suspect" ∷ codes "contested" ∷ []) m.freshness_state)
        (flag_in (codes "contested" ∷ codes "archived" ∷ []) m.lifecycle_state) in
    let title = or_text m.title (or_text m.id (codes "Untitled")) in
    let kind = or_text m.type (codes "memory") in
    (codes "**" ++ (title ++ (codes "** (" ++ (kind ++ (codes ")" ++ flag)))))
    ∷ ((if is_empty m.summary then [] else ((codes "  " ++ take 200 m.summary) ∷ [])) ++ ([] ∷ []))

abbrev each_memory : List RuntimeMemory → List Text
each_memory [] = []
each_memory (m ∷ ms) = memory_lines m ++ each_memory ms

-- `_append_memory_lines`
abbrev memory_section : Text → List RuntimeMemory → List Text
memory_section heading [] = []
memory_section heading (m ∷ ms) = (codes "### " ++ heading) ∷ [] ∷ each_memory (m ∷ ms)

abbrev contradiction_texts : List Contradiction → List Text
contradiction_texts [] = []
contradiction_texts (c ∷ cs) =
    (codes "severity="
      ++ (or_text c.severity (codes "unknown")
          ++ (codes "; item_ids=" ++ join (codes ", ") c.item_ids)))
    ∷ contradiction_texts cs

unfoldable pub followup_lines : Option FollowupQuery → List Text
followup_lines none = []
followup_lines (some q) =
    codes "### Suggested Focused MnemonicOS Query"
    ∷ []
    ∷ (if text_eq q.policy (codes "on_first_failure")
        then codes "If this path fails, ask:"
        else codes "Memory is partial. Ask a focused follow-up:")
    ∷ line (34 ∷ []) q.suggested_query (34 ∷ [])
    ∷ []
    ∷ []

abbrev cutoff_lines : Option Text → List Text
cutoff_lines none = []
cutoff_lines (some reason) =
    if is_empty reason
    then []
    else (codes "### Retry Cutoff"
        ∷ []
        ∷ codes "Memory remains partial after focused retry."
        ∷ (codes "Cutoff: " ++ reason)
        ∷ codes "Do not keep querying automatically."
        ∷ []
        ∷ [])

abbrev is_nil_list : {A : Type 0} → List A → Bool
is_nil_list [] = true
is_nil_list (_ ∷ _) = false

-- `_has_visible_memory`
unfoldable pub has_visible_memory : Emission → Bool
has_visible_memory e =
    let s = e.selected_packet in
    not (
      is_nil_list s.primary_memories
      && (is_nil_list s.same_episode_context
          && (is_nil_list s.related_by_topic
              && (is_nil_list s.related_by_timeline
                  && (is_nil_list s.related_by_similarity
                      && (is_nil_list s.related_by_contrast && is_nil_list e.archive_context))))))

-- U+2014 is the dash of the comment.
abbrev start_marker : Text
start_marker = codes "<!-- MnemonicOS orchestrator context " ++ (0x2014 ∷ codes " do not edit -->")

abbrev pub end_marker : Text
end_marker = codes "<!-- end MnemonicOS orchestrator context -->"

unfoldable pub single_lines : Emission → List Text
unfolding memory_lines followup_lines has_visible_memory join
single_lines e =
    let s = e.selected_packet in
    (start_marker
      ∷ codes "## Memory Context"
      ∷ []
      ∷ item (codes "retrieval_state") e.retrieval_state
      ∷ item (codes "recommendation") e.recommendation
      ∷ item (codes "verification_action") e.verification_action
      ∷ [])
    ++ (item_if_set (codes "completion_state") e.completion_state
        ++ (item_if_set (codes "emission_profile") e.emission_profile
            ++ ((item (codes "task_id") e.task_id ∷ [] ∷ [])
                ++ (section (codes "### Warnings") e.warnings
                    ++ (memory_section (codes "Primary Memory") s.primary_memories
                        ++ (memory_section (codes "Same Episode") s.same_episode_context
                            ++ (memory_section (codes "Related by Topic") s.related_by_topic
                                ++ (memory_section (codes "Related by Timeline")
                                      s.related_by_timeline
                                    ++ (memory_section (codes "Related by Similarity")
                                          s.related_by_similarity
                                        ++ (memory_section (codes "Related by Contrast")
                                              s.related_by_contrast
                                            ++ (memory_section (codes "Archive Evidence")
                                                  e.archive_context
                                                ++ (section (codes "### Contradictions")
                                                      (contradiction_texts e.contradictions)
                                                    ++ (section (codes "### Missing Required Role")
                                                          e.missing_roles
                                                        ++ (followup_lines e.followup_query
                                                            ++ (cutoff_lines
                                                            e.retry_control.cutoff_reason
                                                            ++ ((if has_visible_memory e
                                                            then []
                                                            else (codes "### Relevant Notes"
                                                            ∷ []
                                                            ∷ codes
                                                            "- No relevant MnemonicOS notes found."
                                                            ∷ []
                                                            ∷ []))
                                                            ++ (end_marker ∷ [])))))))))))))))))

unfoldable pub render_single_markdown : Emission → Text
unfolding single_lines join
render_single_markdown e = join (10 ∷ []) (single_lines e)

-- `str.splitlines`, with the line that is begun.
abbrev is_line_end : ℕ → Bool
is_line_end c =
    (leb 10 c && leb c 13) || ((leb 28 c && leb c 30) || (c == 133 || (c == 8232 || c == 8233)))

unfoldable pub split_lines : Text → Text → List Text
split_lines begun [] = if is_empty begun then [] else (begun ∷ [])
split_lines begun (c ∷ []) = if is_line_end c then begun ∷ [] else (begun ++ (c ∷ [])) ∷ []
split_lines begun (c ∷ d ∷ s) =
    let after_pair = split_lines [] s in
    let after_one = split_lines [] (d ∷ s) in
    let longer = split_lines (begun ++ (c ∷ [])) (d ∷ s) in
    if c == 13 && d == 10
    then begun ∷ after_pair
    else if is_line_end c
    then begun ∷ after_one
    else longer

abbrev first_filled : List Text → List Text → List Text
first_filled [] b = b
first_filled (a ∷ rest) _ = a ∷ rest

abbrev found_or_cut : List Text → Option Text → Text
found_or_cut [] none = codes " completed."
found_or_cut [] (some reason) =
    if is_empty reason
    then codes " completed."
    else codes " found no new memory. Cutoff: " ++ (reason ++ codes ".")
found_or_cut (x ∷ xs) cutoff =
    codes " found "
    ++ (decimal (length (x ∷ xs))
        ++ (codes " new memory: " ++ (join (codes ", ") (x ∷ xs) ++ codes ".")))

abbrev pass_rest : PassLine → Text
pass_rest p =
    let found = found_or_cut (first_filled p.new_ids p.emission_new_ids) p.cutoff_reason in
    elim p.followup_query [
      | none ↦ found
      | some q ↦
          if p.pass_index == 1
          then codes " emitted focused query for missing role "
            ++ (join (codes ", ") q.missing_roles ++ codes ".")
          else found
    ]

unfoldable pub pass_text : PassLine → Text
unfolding join
pass_text p =
    codes "- Pass "
    ++ (decimal p.pass_index ++ (codes " query_id=" ++ (decimal p.query_id ++ pass_rest p)))

abbrev pass_texts : List PassLine → List Text
pass_texts [] = []
pass_texts (p ∷ ps) = pass_text p ∷ pass_texts ps

abbrev final_line : ℕ → Option Text → Text
final_line index none = codes "- Final pass index: " ++ (decimal index ++ codes ".")
final_line index (some reason) =
    if is_empty reason
    then codes "- Final pass index: " ++ (decimal index ++ codes ".")
    else codes "- Final pass index: "
      ++ (decimal index ++ (codes "; cutoff=" ++ (reason ++ codes ".")))

-- The lines without the end marker, read from the last, and the marker.
abbrev without_end : List Text → List Text × Text
without_end [] = ([], end_marker)
without_end (l ∷ ls) =
    if starts_with (codes "<!-- end MnemonicOS") l
    then (reverse ls, l)
    else (reverse (l ∷ ls), end_marker)

unfoldable pub render_composed_markdown : Emission → List PassLine → ℕ → Option Text → Text
unfolding render_single_markdown split_lines pass_text join
render_composed_markdown e passes final_pass_index cutoff =
    let markdown = render_single_markdown e in
    let (lines, marker) = without_end (reverse (split_lines [] markdown)) in
    let composed = join (10 ∷ []) (
      lines
      ++ (([] ∷ codes "### Retry Trace" ∷ [] ∷ [])
          ++ (pass_texts passes ++ (final_line final_pass_index cutoff ∷ marker ∷ [])))) in
    if leb (length passes) 1 then markdown else composed
