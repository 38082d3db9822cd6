-- ===== src/ToolDispatch/Arguments.antt =====
-- The errors and the arguments of crates/consensus/src/tools.rs.
use prosthetic_conscience.Prelude.{
  ℕ, String, [], ◌∷◌, Option, none, some, ◌==◌, string_eq, if◌then◌else◌, concat, push_str,
}
use prosthetic_conscience.Json.{Json}
use prosthetic_conscience.Types
use prosthetic_conscience.Types.{ClaimKind, RelationKind, Position, Outcome}
use prosthetic_conscience.Drafts.{ClaimRef, EngineError}
use prosthetic_conscience.Format.Errors.{engine_error_text}
use prosthetic_conscience.ClaimRefs.{from_json_value}
use prosthetic_conscience.Response.{str_at, u64_at}

pub data ToolError : Type 0 where
  unknown_tool missing_argument invalid_argument serialize : String → ToolError
  engine_error : EngineError → ToolError

-- `error.to_string()`, by the attributes of the variants.
unfoldable pub tool_error_text : ToolError → String
unfolding engine_error_text
tool_error_text (unknown_tool tool) = push_str "unknown tool: " tool
tool_error_text (missing_argument field) = push_str "missing required argument: " field
tool_error_text (invalid_argument message) = push_str "invalid argument: " message
tool_error_text (serialize error) = push_str "serialization error: " error
tool_error_text (engine_error error) = push_str "engine error: " (engine_error_text error)

pub data Result (A : Type 0) : Type 0 where
  ok : A → Result A
  err : ToolError → Result A

-- The operator `?`.
infixl 5 ◌>>=◌
abbrev pub ◌>>=◌ : {A B : Type 0} → Result A → (A → Result B) → Result B
ok a >>= f = f a
err error >>= f = err error

abbrev pub ok_or : {A : Type 0} → ToolError → Option A → Result A
ok_or error none = err error
ok_or error (some a) = ok a

abbrev unknown_word : {A : Type 0} → (field kind other : String) → Result A
unknown_word field kind other =
    err (invalid_argument (concat (field ∷ ": unknown " ∷ kind ∷ " '" ∷ other ∷ "'" ∷ [])))

abbrev claim_kind_word : String → String → Result ClaimKind
claim_kind_word field s =
    if s == "item"
    then ok Types.item
    else if s == "proposal"
    then ok Types.proposal
    else if s == "fact"
    then ok Types.fact
    else if s == "conditional"
    then ok Types.conditional
    else if s == "value"
    then ok Types.value
    else if s == "reference"
    then ok Types.reference
    else unknown_word field "claim kind" s

abbrev relation_kind_word : String → String → Result RelationKind
relation_kind_word field s =
    if s == "attacks"
    then ok Types.attacks
    else if s == "supports"
    then ok Types.supports
    else unknown_word field "relation kind" s

abbrev position_word : String → String → Result Position
position_word field s =
    if s == "block"
    then ok Types.block
    else if s == "object"
    then ok Types.object
    else if s == "stand_aside"
    then ok Types.stand_aside
    else if s == "abstain"
    then ok Types.abstain
    else if s == "consent"
    then ok Types.consent
    else if s == "support"
    then ok Types.support
    else if s == "champion"
    then ok Types.champion
    else unknown_word field "position" s

abbrev outcome_word : String → String → Result Outcome
outcome_word field s =
    if s == "accepted"
    then ok Types.accepted
    else if s == "rejected"
    then ok Types.rejected
    else if s == "tabled"
    then ok Types.tabled
    else if s == "withdrawn"
    then ok Types.withdrawn
    else unknown_word field "outcome" s

module _ {Value : Type 0} (json : Json Value) where
  unfoldable pub require_str : Value → String → Result String
  require_str args field = ok_or (missing_argument field) (str_at json args field)

  unfoldable pub require_u64 : Value → String → Result ℕ
  require_u64 args field = ok_or (missing_argument field) (u64_at json args field)

  unfoldable pub parse_claim_ref : Value → String → Result ClaimRef
  unfolding from_json_value
  parse_claim_ref value field =
      ok_or
        (invalid_argument (
          push_str field
            ": expected a claim reference string (claim:<id>, draft:<n>, #<n>) or an object with exactly one of claim_id or draft_id"))
        (from_json_value json value)

  unfoldable pub require_claim_ref : Value → String → Result ClaimRef
  unfolding parse_claim_ref
  require_claim_ref args field =
      ok_or (missing_argument field) (json.get args field) >>= λ value. parse_claim_ref value field

  unfoldable pub optional_claim_ref : Value → String → Result (Option ClaimRef)
  unfolding parse_claim_ref
  optional_claim_ref args field = elim (json.get args field) [
    | none ↦ ok none
    | some value ↦ parse_claim_ref value field >>= λ claim_ref. ok (some claim_ref)
  ]

  unfoldable pub require_claim_kind : Value → String → Result ClaimKind
  unfolding require_str
  require_claim_kind args field = require_str args field >>= claim_kind_word field

  unfoldable pub require_relation_kind : Value → String → Result RelationKind
  unfolding require_str
  require_relation_kind args field = require_str args field >>= relation_kind_word field

  unfoldable pub require_position : Value → String → Result Position
  unfolding require_str
  require_position args field = require_str args field >>= position_word field

  unfoldable pub require_outcome : Value → String → Result Outcome
  unfolding require_str
  require_outcome args field = require_str args field >>= outcome_word field
