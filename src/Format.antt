-- ===== src/Format.antt =====
-- crates/consensus/src/format.rs: the texts of the views, for prompts and terminals.
pub mod Words
pub mod Errors
use prosthetic_conscience.Prelude.{
  ℕ, ◌-◌, Bool, true, false, ◌&&◌, ◌||◌, String, List, [], ◌∷◌, ◌++◌, Option, none, some,
  if◌then◌else◌, is_empty, length, filterb, map, ltb, push_str, is_empty_text, decimal, concat,
  join,
}
use prosthetic_conscience.Types.{ClaimId, Resolution}
use prosthetic_conscience.Types
use prosthetic_conscience.Drafts.{
  ClaimRef, DraftContent, claim, relation, stance, resolve, comment, DraftEntry,
}
use prosthetic_conscience.Render.{
  StanceSummary, ClaimSummary, AttentionSignal, unexamined, contested, unresolved_cycle,
  OverviewData, ClaimDetail,
}
use prosthetic_conscience.Preview.{ImpactNewClaim, ImpactStatusChange, ImpactAnalysis}
use prosthetic_conscience.Format.Words.{
  format_claim_ref, format_position, format_kind, format_relation_kind, format_outcome, status_or,
}

-- `writeln!`.
abbrev pub line : List String → String
line texts = push_str (concat texts) "\n"

-- A line for each element.
abbrev pub lines : {A : Type 0} → (A → List String) → List A → String
lines f [] = ""
lines f (x ∷ xs) = push_str (line (f x)) (lines f xs)

-- A heading and a line for each element, if there is any.
abbrev pub section : {A : Type 0} → String → (A → List String) → List A → String
section heading f [] = ""
section heading f (x ∷ xs) = concat (heading ∷ lines f (x ∷ xs) ∷ [])

unfoldable pub format_stance_summary : List StanceSummary → String
format_stance_summary stances =
    join " | "
      (map (λ s. concat (format_position s.position ∷ ": " ∷ join ", " s.authors ∷ [])) stances)

unfoldable pub format_claim_oneliner : ClaimSummary → String
unfolding format_stance_summary
format_claim_oneliner c =
    let status = status_or "unknown" c.status in
    let stances = format_stance_summary c.stances in
    if is_empty_text stances
    then concat ("[" ∷ c.id ∷ "] \"" ∷ c.body ∷ "\" by " ∷ c.author ∷ " — " ∷ status ∷ [])
    else concat (
        "[" ∷ c.id ∷ "] \"" ∷ c.body ∷ "\" by " ∷ c.author ∷ " — " ∷ status ∷ " (" ∷ stances ∷ ")"
        ∷ [])

unfoldable pub format_attention_signal : AttentionSignal → String
format_attention_signal (contested claim_id body blockers) =
    concat (
      "[" ∷ claim_id ∷ "] \"" ∷ body ∷ "\" — Contested (blockers: " ∷ join ", " blockers ∷ ")" ∷ [])
format_attention_signal (unexamined claim_id body author) =
    concat ("[" ∷ claim_id ∷ "] \"" ∷ body ∷ "\" by " ∷ author ∷ " — Unexamined" ∷ [])
format_attention_signal (unresolved_cycle claim_ids) =
    concat (join " <-> " claim_ids ∷ " — Unresolved cycle" ∷ [])

abbrev is_accepted : ClaimSummary → Bool
is_accepted c = elim c.resolution [
  | none ↦ false
  | some r ↦ elim r.outcome [ Types.accepted ↦ true | _ ↦ false ]
]

abbrev outcome_or_resolved : Option Resolution → String
outcome_or_resolved none = "resolved"
outcome_or_resolved (some r) = format_outcome r.outcome

-- The counts of the resolved claims, in parentheses, if there are any.
abbrev resolved_parts : ℕ → ℕ → String
resolved_parts accepted others =
    let parts =
      (if ltb 0 accepted then concat (decimal accepted ∷ " accepted" ∷ []) ∷ [] else [])
      ++ (if ltb 0 others then concat (decimal others ∷ " other" ∷ []) ∷ [] else []) in
    if ltb 0 accepted || ltb 0 others then concat (" (" ∷ join ", " parts ∷ ")" ∷ []) else ""

abbrev claim_line : ClaimSummary → List String
claim_line c = "  " ∷ format_claim_oneliner c ∷ []

unfoldable pub format_overview : OverviewData → String
unfolding format_claim_oneliner format_attention_signal
format_overview overview =
    let accepted = length (filterb is_accepted overview.resolved) in
    concat (
      line (
        "Deliberation: "
        ∷ decimal overview.total_claims
        ∷ " claims, "
        ∷ decimal overview.total_relations
        ∷ " relations, "
        ∷ decimal overview.total_stances
        ∷ " stances from "
        ∷ decimal (length overview.participants)
        ∷ " participants"
        ∷ [])
      ∷ "Open items: "
      ∷ decimal (length overview.items)
      ∷ " | Active proposals: "
      ∷ decimal (length overview.proposals)
      ∷ " | Resolved: "
      ∷ decimal (length overview.resolved)
      ∷ resolved_parts accepted (length overview.resolved - accepted)
      ∷ "\n"
      ∷ section "\nProposals:\n" claim_line overview.proposals
      ∷ section "\nOpen items:\n" claim_line overview.items
      ∷ section "\nResolved:\n"
          (λ r.
            "  ["
            ∷ r.id
            ∷ "] \""
            ∷ r.body
            ∷ "\" by "
            ∷ r.author
            ∷ " — "
            ∷ outcome_or_resolved r.resolution
            ∷ [])
          overview.resolved
      ∷ section "\nNeeds attention:\n" (λ signal. "  " ∷ format_attention_signal signal ∷ [])
          overview.attention
      ∷ [])

abbrev resolution_line : Option Resolution → String
resolution_line none = ""
resolution_line (some r) =
    line ("  Resolution: " ∷ format_outcome r.outcome ∷ " by " ∷ r.author ∷ [])

abbrev indented : ClaimSummary → List String
indented c = "    " ∷ format_claim_oneliner c ∷ []

unfoldable pub format_claim_detail : ClaimDetail → String
unfolding format_claim_oneliner
format_claim_detail detail =
    let c = detail.claim in
    concat (
      line ("[" ∷ c.id ∷ "] \"" ∷ c.body ∷ "\"" ∷ [])
      ∷ line (
          "  Author: "
          ∷ c.author
          ∷ " | Kind: "
          ∷ format_kind c.kind
          ∷ " | Status: "
          ∷ status_or "unknown" c.status
          ∷ [])
      ∷ resolution_line c.resolution
      ∷ section "  Stances:\n"
          (λ s. "    " ∷ format_position s.position ∷ ": " ∷ join ", " s.authors ∷ []) c.stances
      ∷ section "  Attacked by:\n" indented detail.attacked_by
      ∷ section "  Supported by:\n" indented detail.supported_by
      ∷ section "  Attacks:\n" indented detail.attacks
      ∷ section "  Supports:\n" indented detail.supports
      ∷ [])

abbrev ref_or_empty : String → Option ClaimRef → String
ref_or_empty prefix none = ""
ref_or_empty prefix (some claim_ref) = push_str prefix (format_claim_ref claim_ref)

unfoldable pub format_draft_entry : DraftEntry → String
unfolding format_claim_ref
format_draft_entry d =
    let id = push_str "#" (decimal d.id) in
    elim d.entry [
      | claim body claim_kind parent ↦ concat (
          id
          ∷ " claim \""
          ∷ body
          ∷ "\" ("
          ∷ format_kind claim_kind
          ∷ ")"
          ∷ ref_or_empty " parent=" parent
          ∷ [])
      | relation source target kind ↦ concat (
          id
          ∷ " relation "
          ∷ format_claim_ref source
          ∷ " "
          ∷ format_relation_kind kind
          ∷ " "
          ∷ format_claim_ref target
          ∷ [])
      | stance target position ↦
          concat
            (id ∷ " stance " ∷ format_position position ∷ " on " ∷ format_claim_ref target ∷ [])
      | resolve claim_ref outcome ↦
          concat
            (id ∷ " resolve " ∷ format_claim_ref claim_ref ∷ " as " ∷ format_outcome outcome ∷ [])
      | comment claim_ref body ↦
          concat (id ∷ " comment" ∷ ref_or_empty " on " claim_ref ∷ " — \"" ∷ body ∷ "\"" ∷ [])
    ]

unfoldable pub format_drafts : List DraftEntry → String
unfolding format_draft_entry
format_drafts drafts =
    if is_empty drafts
    then "Pending drafts: none"
    else push_str (line ("Pending drafts: " ∷ decimal (length drafts) ∷ []))
        (lines (λ d. "  " ∷ format_draft_entry d ∷ []) drafts)

unfoldable pub format_impact_analysis : ImpactAnalysis → String
format_impact_analysis impact =
    if is_empty impact.new_claims && is_empty impact.status_changes
    then "Impact: no structural changes"
    else concat (
        line (
          "Impact: "
          ∷ decimal (length impact.new_claims)
          ∷ " new claims, "
          ∷ decimal (length impact.status_changes)
          ∷ " status changes"
          ∷ [])
        ∷ section "New claims:\n"
            (λ c.
              "  [#"
              ∷ decimal c.draft_id
              ∷ "] \""
              ∷ c.body
              ∷ "\" by "
              ∷ c.author
              ∷ " — "
              ∷ format_kind c.kind
              ∷ " ("
              ∷ status_or "unknown" c.status
              ∷ ")"
              ∷ [])
            impact.new_claims
        ∷ section "Status changes:\n"
            (λ c.
              "  ["
              ∷ c.claim_id
              ∷ "] \""
              ∷ c.body
              ∷ "\" — "
              ∷ status_or "none" c.before
              ∷ " -> "
              ∷ status_or "resolved" c.after
              ∷ [])
            impact.status_changes
        ∷ [])
