-- ===== src/AppTools.antt =====
-- crates/consensus/src/app_tools.rs: how a tool call of the model is decoded. The error texts of
-- `serde_json` are those that `from_str` gives.
use prosthetic_conscience.Prelude.{
  ℕ, not, String, Option, none, some, ◌==◌, string_eq, if◌then◌else◌, push_str,
}
use prosthetic_conscience.Json.{Json, parsed, failed}
use prosthetic_conscience.Types.{
  ClaimId, ClaimKind, item, proposal, fact, conditional, reference, RelationKind, attacks, supports,
  Position, block, object, stand_aside, abstain, consent, support, champion, Outcome, accepted,
  rejected, tabled, withdrawn,
}
use prosthetic_conscience.Types
use prosthetic_conscience.Drafts.{ClaimRef}
use prosthetic_conscience.ClaimRefs.{from_json_value}
use prosthetic_conscience.Response.{RawToolCall}

pub data AppTool : Type 0 where
  overview show_drafts preview_overview impact_analysis : AppTool
  claim_detail : (claim_id : ClaimId) → AppTool
  preview_claim_detail : (claim_ref : ClaimRef) → AppTool
  draft_claim : (body : String) (kind : ClaimKind) (parent : Option ClaimRef) → AppTool
  draft_relation : (source target : ClaimRef) (kind : RelationKind) → AppTool
  draft_stance : (target : ClaimRef) (position : Position) → AppTool
  draft_resolve : (claim_ref : ClaimRef) (outcome : Outcome) → AppTool
  draft_comment : (body : String) (claim_ref : Option ClaimRef) → AppTool
  remove_draft : (draft_id : ℕ) → AppTool

pub data ToolDecodeErrorKind : Type 0 where
  unknown_tool invalid_json_arguments : ToolDecodeErrorKind
  missing_required_argument invalid_argument_value : ToolDecodeErrorKind

pub record ToolDecodeError : Type 0 where
  pub kind : ToolDecodeErrorKind
  pub message : String

pub data Result (A : Type 0) : Type 0 where
  ok : A → Result A
  err : ToolDecodeError → Result A

-- The operator `?`.
infixl 5 ◌>>=◌
abbrev pub ◌>>=◌ : {A B : Type 0} → Result A → (A → Result B) → Result B
ok a >>= f = f a
err error >>= f = err error

abbrev pub ok_or_else : {A : Type 0} → Option A → ToolDecodeError → Result A
ok_or_else none error = err error
ok_or_else (some a) error = ok a

abbrev pub missing : String → ToolDecodeError
missing field = record {
  kind = missing_required_argument;
  message = push_str "missing required argument: " field;
}

abbrev pub invalid : String → String → ToolDecodeError
invalid field message = record { kind = invalid_argument_value; message = push_str field message }

abbrev pub unknown_word : {A : Type 0} → String → String → String → Result A
unknown_word field kind other =
    err (invalid field (push_str ": unknown " (push_str kind (push_str " '" (push_str other "'")))))

-- The tables of words of `require_claim_kind`, `require_relation_kind`, `require_position` and
-- `require_outcome`.
unfoldable pub claim_kind_of : String → String → Result ClaimKind
claim_kind_of field word =
    if word == "item"
    then ok item
    else if word == "proposal"
    then ok proposal
    else if word == "fact"
    then ok fact
    else if word == "conditional"
    then ok conditional
    else if word == "value"
    then ok Types.value
    else if word == "reference"
    then ok reference
    else unknown_word field "claim kind" word

unfoldable pub relation_kind_of : String → String → Result RelationKind
relation_kind_of field word =
    if word == "attacks"
    then ok attacks
    else if word == "supports"
    then ok supports
    else unknown_word field "relation kind" word

unfoldable pub position_of : String → String → Result Position
position_of field word =
    if word == "block"
    then ok block
    else if word == "object"
    then ok object
    else if word == "stand_aside"
    then ok stand_aside
    else if word == "abstain"
    then ok abstain
    else if word == "consent"
    then ok consent
    else if word == "support"
    then ok support
    else if word == "champion"
    then ok champion
    else unknown_word field "position" word

unfoldable pub outcome_of : String → String → Result Outcome
outcome_of field word =
    if word == "accepted"
    then ok accepted
    else if word == "rejected"
    then ok rejected
    else if word == "tabled"
    then ok tabled
    else if word == "withdrawn"
    then ok withdrawn
    else unknown_word field "outcome" word

module _ {Value : Type 0} (json : Json Value) where
  unfoldable pub require_value : Value → String → Result Value
  require_value args field = ok_or_else (json.get args field) (missing field)

  unfoldable pub require_string : Value → String → Result String
  unfolding require_value
  require_string args field = require_value args field >>= λ value.
      ok_or_else (json.as_str value) (invalid field ": expected a string")

  unfoldable pub require_u64 : Value → String → Result ℕ
  unfolding require_value
  require_u64 args field = require_value args field >>= λ value.
      ok_or_else (json.as_u64 value) (invalid field ": expected a non-negative integer")

  unfoldable pub parse_claim_ref : Value → String → Result ClaimRef
  unfolding from_json_value
  parse_claim_ref value field = ok_or_else (from_json_value json value) (
      invalid field
        ": expected a claim reference string (claim:<id>, draft:<n>, #<n>) or an object with exactly one of claim_id or draft_id")

  unfoldable pub require_claim_ref : Value → String → Result ClaimRef
  unfolding require_value parse_claim_ref
  require_claim_ref args field = require_value args field >>= λ value. parse_claim_ref value field

  unfoldable pub optional_claim_ref : Value → String → Result (Option ClaimRef)
  unfolding parse_claim_ref
  optional_claim_ref args field = elim (json.get args field) [
    | none ↦ ok none
    | some value ↦ parse_claim_ref value field >>= λ claim_ref. ok (some claim_ref)
  ]

  unfoldable pub require_claim_kind : Value → String → Result ClaimKind
  unfolding require_string claim_kind_of
  require_claim_kind args field = require_string args field >>= claim_kind_of field

  unfoldable pub require_relation_kind : Value → String → Result RelationKind
  unfolding require_string relation_kind_of
  require_relation_kind args field = require_string args field >>= relation_kind_of field

  unfoldable pub require_position : Value → String → Result Position
  unfolding require_string position_of
  require_position args field = require_string args field >>= position_of field

  unfoldable pub require_outcome : Value → String → Result Outcome
  unfolding require_string outcome_of
  require_outcome args field = require_string args field >>= outcome_of field

  -- The arms that read arguments.
  unfoldable pub decode_claim_detail : Value → Result AppTool
  unfolding require_string
  decode_claim_detail args =
      require_string args "claim_id" >>= λ claim_id. ok (claim_detail claim_id)

  unfoldable pub decode_preview_claim_detail : Value → Result AppTool
  unfolding require_claim_ref
  decode_preview_claim_detail args =
      require_claim_ref args "claim" >>= λ claim_ref. ok (preview_claim_detail claim_ref)

  unfoldable pub decode_draft_claim : Value → Result AppTool
  unfolding require_string require_claim_kind optional_claim_ref
  decode_draft_claim args = require_string args "body" >>= λ body.
      require_claim_kind args "kind" >>= λ kind.
      optional_claim_ref args "parent" >>= λ parent. ok (draft_claim body kind parent)

  unfoldable pub decode_draft_relation : Value → Result AppTool
  unfolding require_claim_ref require_relation_kind
  decode_draft_relation args = require_claim_ref args "source" >>= λ source.
      require_claim_ref args "target" >>= λ target.
      require_relation_kind args "kind" >>= λ kind. ok (draft_relation source target kind)

  unfoldable pub decode_draft_stance : Value → Result AppTool
  unfolding require_claim_ref require_position
  decode_draft_stance args = require_claim_ref args "target" >>= λ target.
      require_position args "position" >>= λ position. ok (draft_stance target position)

  unfoldable pub decode_draft_resolve : Value → Result AppTool
  unfolding require_claim_ref require_outcome
  decode_draft_resolve args = require_claim_ref args "claim" >>= λ claim_ref.
      require_outcome args "outcome" >>= λ outcome. ok (draft_resolve claim_ref outcome)

  unfoldable pub decode_draft_comment : Value → Result AppTool
  unfolding require_string optional_claim_ref
  decode_draft_comment args = require_string args "body" >>= λ body.
      optional_claim_ref args "claim" >>= λ claim_ref. ok (draft_comment body claim_ref)

  unfoldable pub decode_remove_draft : Value → Result AppTool
  unfolding require_u64
  decode_remove_draft args = require_u64 args "draft_id" >>= λ draft_id. ok (remove_draft draft_id)

  -- The arms on the name of the function.
  unfoldable pub decode_named : String → Value → Result AppTool
  unfolding decode_claim_detail decode_preview_claim_detail decode_draft_claim decode_draft_relation
      decode_draft_stance decode_draft_resolve decode_draft_comment decode_remove_draft
  decode_named name args =
      if name == "overview"
      then ok overview
      else if name == "claim_detail"
      then decode_claim_detail args
      else if name == "show_drafts"
      then ok show_drafts
      else if name == "preview_overview"
      then ok preview_overview
      else if name == "preview_claim_detail"
      then decode_preview_claim_detail args
      else if name == "impact_analysis"
      then ok impact_analysis
      else if name == "draft_claim"
      then decode_draft_claim args
      else if name == "draft_relation"
      then decode_draft_relation args
      else if name == "draft_stance"
      then decode_draft_stance args
      else if name == "draft_resolve"
      then decode_draft_resolve args
      else if name == "draft_comment"
      then decode_draft_comment args
      else if name == "remove_draft"
      then decode_remove_draft args
      else err (record { kind = unknown_tool; message = push_str "unknown tool: " name })

  unfoldable pub decode_tool_call : RawToolCall → Result AppTool
  unfolding decode_named
  decode_tool_call raw =
      if not (raw.call_type == "function")
      then err (record {
        kind = invalid_argument_value;
        message = push_str "unsupported tool call type: " raw.call_type;
      })
      else elim (json.from_str raw.function.arguments) [
        | failed error ↦ err (record {
          kind = invalid_json_arguments;
          message = push_str "invalid tool call arguments: " error;
        })
        | parsed args ↦ decode_named raw.function.name args
      ]
