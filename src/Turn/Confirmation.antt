-- ===== src/Turn/Confirmation.antt =====
-- The confirmation of crates/consensus/src/llm_turn.rs after a tool has changed the drafts.
use prosthetic_conscience.Prelude.{
  Bool, not, ◌&&◌, String, List, [], ◌∷◌, ◌++◌, Option, none, some, ◌==◌, string_eq, if◌then◌else◌,
  is_some, find_first, concat,
}
use prosthetic_conscience.Json.{Json}
use prosthetic_conscience.Drafts
use prosthetic_conscience.Drafts.{ClaimRef}
use prosthetic_conscience.Render.{ClaimDetail}
use prosthetic_conscience.ClaimRefs.{from_json_value}
use prosthetic_conscience.Response.{CompletedAssistantMessage, stop, str_at, unwrap_or}
use prosthetic_conscience.Engine.{ConsensusEngine}
use prosthetic_conscience.Engine.Queries
use prosthetic_conscience.Turn.Trace.{ToolExecutionTrace, is_draft_mutation_tool}

abbrev updated : String
updated = concat (
    "I've updated the pending draft. It's still only local for now, so we can adjust it "
    ∷ "before you submit it." ∷ [])

abbrev described : Drafts.Result (Option ClaimDetail) → String
described (Drafts.ok (some detail)) = concat ("\"" ∷ detail.claim.body ∷ "\"" ∷ [])
described _ = "that idea"

unfoldable pub describe_claim_ref : ConsensusEngine → ClaimRef → String
describe_claim_ref engine claim_ref = described (Queries.preview_claim_detail engine claim_ref)

abbrev stance_verb : String → String
stance_verb position =
    if position == "consent"
    then "agree with"
    else if position == "support"
    then "support"
    else if position == "champion"
    then "strongly back"
    else if position == "object"
    then "object to"
    else if position == "block"
    then "block"
    else if position == "abstain"
    then "abstain on"
    else if position == "stand_aside"
    then "stand aside on"
    else "take a position on"

abbrev outcome_word : String → String
outcome_word outcome =
    if outcome == "accepted"
    then "accepted"
    else if outcome == "rejected"
    then "rejected"
    else if outcome == "tabled"
    then "tabled"
    else if outcome == "withdrawn"
    then "withdrawn"
    else "resolved"

-- `iter().rev()`.
abbrev reversed : {A : Type 0} → List A → List A
reversed [] = []
reversed (x ∷ xs) = reversed xs ++ x ∷ []

module _ {Value : Type 0} (json : Json Value) where
  abbrev described_at : ConsensusEngine → Value → (key other : String) → String
  described_at engine arguments key other = elim (json.get arguments key) [
    | none ↦ other
    | some value ↦ elim (from_json_value json value) [
      | none ↦ other
      | some claim_ref ↦ describe_claim_ref engine claim_ref
    ]
  ]

  -- The arms on the name of the function. A word that is missing is taken as one that is unknown.
  unfoldable pub confirmation : ConsensusEngine → String → Value → String
  unfolding describe_claim_ref
  confirmation engine name arguments =
      if name == "draft_claim"
      then concat (
          "I've prepared a draft for \""
          ∷ unwrap_or "that idea" (str_at json arguments "body")
          ∷ "\". It's still only a local draft, so we can adjust the wording before you submit it."
          ∷ [])
      else if name == "draft_relation"
      then concat (
          "I've prepared a draft saying that "
          ∷ described_at engine arguments "source" "the first idea"
          ∷ " "
          ∷ (if unwrap_or "" (str_at json arguments "kind") == "attacks"
              then "challenges"
              else "supports")
          ∷ " "
          ∷ described_at engine arguments "target" "the second idea"
          ∷ ". It's still only a local draft, so we can refine that connection before you submit it."
          ∷ [])
      else if name == "draft_stance"
      then concat (
          "I've noted that you "
          ∷ stance_verb (unwrap_or "" (str_at json arguments "position"))
          ∷ " "
          ∷ described_at engine arguments "target" "that idea"
          ∷ ". It's still only a local draft, so we can adjust the strength or wording before you "
          ∷ "submit it."
          ∷ [])
      else if name == "draft_resolve"
      then concat (
          "I've prepared a draft to mark "
          ∷ described_at engine arguments "claim" "that proposal"
          ∷ " as "
          ∷ outcome_word (unwrap_or "" (str_at json arguments "outcome"))
          ∷ ". It's still only a local draft, so we can adjust it before you submit it."
          ∷ [])
      else if name == "draft_comment"
      then concat (
          "I've prepared a draft note: \""
          ∷ unwrap_or "that note" (str_at json arguments "body")
          ∷ "\". It's still only a local draft, so we can revise it before you submit it."
          ∷ [])
      else if name == "remove_draft"
      then concat (
          "I've removed that pending draft. If you want, we can prepare a revised version "
          ∷ "instead." ∷ [])
      else updated

  unfoldable pub render_mutation_confirmation : ConsensusEngine → ToolExecutionTrace Value → String
  unfolding confirmation
  render_mutation_confirmation engine execution = elim execution.parsed_arguments [
    | none ↦ updated
    | some arguments ↦ confirmation engine execution.function_name arguments
  ]

  abbrev is_mutation : ToolExecutionTrace Value → Bool
  is_mutation execution =
      not (is_some execution.dispatch_error) && is_draft_mutation_tool execution.function_name

  unfoldable pub synthesize_mutation_follow_up :
      ConsensusEngine → List (ToolExecutionTrace Value) → CompletedAssistantMessage
  unfolding render_mutation_confirmation
  synthesize_mutation_follow_up engine tool_results = record {
    content = some (elim (find_first is_mutation (reversed tool_results)) [
      | none ↦ updated
      | some execution ↦ render_mutation_confirmation engine execution
    ]);
    tool_calls = [];
    finish_reason = some stop;
  }
