-- ===== src/Turn/Trace.antt =====
-- The traces and the request of crates/consensus/src/llm_turn.rs.
use prosthetic_conscience.Prelude.{
  ℕ, Bool, not, ◌||◌, String, List, [], ◌∷◌, Option, some, ◌==◌, string_eq, filterb,
}
use prosthetic_conscience.Json.{Json}
use prosthetic_conscience.Format.{format_overview, format_drafts}
use prosthetic_conscience.SystemPrompt
use prosthetic_conscience.Response.{CompletedAssistantMessage}
use prosthetic_conscience.Engine.{ConsensusEngine}
use prosthetic_conscience.Engine.Queries
use prosthetic_conscience.App.Prompt.{
  ToolDef, format_tool_definitions, tool_definitions_json, impact_text,
}

abbrev pub max_completion_tokens : ℕ
max_completion_tokens = 512

pub record ToolExecutionTrace (Value : Type 0) : Type 0 where
  pub call_id : String
  pub function_name : String
  pub arguments_json : String
  pub parsed_arguments : Option Value
  pub argument_parse_error : Option String
  pub tool_result_content : String
  pub dispatch_error : Option String

pub record LlmRoundTrace (Value : Type 0) : Type 0 where
  pub round : ℕ
  pub request_history_messages : ℕ
  pub request_messages : ℕ
  pub response_chunks : ℕ
  pub assistant_message : Option CompletedAssistantMessage
  pub tool_results : List (ToolExecutionTrace Value)
  pub error : Option String

pub data TurnStep (Value : Type 0) : Type 0 where
  final : CompletedAssistantMessage → LlmRoundTrace Value → TurnStep Value
  needs_request : (payload : Value) → LlmRoundTrace Value → TurnStep Value
  max_rounds_exceeded : LlmRoundTrace Value → TurnStep Value

pub record TurnConfig : Type 0 where
  pub round : ℕ
  pub max_rounds : ℕ
  pub max_history : ℕ
  pub model : String
  pub participant : String

abbrev pub is_draft_mutation_tool : String → Bool
is_draft_mutation_tool name =
    name == "draft_claim"
    || name == "draft_relation"
    || name == "draft_stance"
    || name == "draft_resolve"
    || name == "draft_comment"
    || name == "remove_draft"

module _ {Value : Type 0} where
  -- `llm_tool_definitions` of crates/consensus/src/tools.rs.
  abbrev pub llm_tool_definitions : List (ToolDef Value) → List (ToolDef Value)
  llm_tool_definitions defs =
      filterb (λ d. not (d.name == "submit_drafts" || d.name == "clear_drafts")) defs

  unfoldable pub build_system_prompt : List (ToolDef Value) → String → ConsensusEngine → String
  build_system_prompt defs participant engine = SystemPrompt.build_system_prompt (record {
    participant = participant;
    overview = format_overview (Queries.overview engine);
    drafts = format_drafts engine.drafts;
    impact = some (impact_text (Queries.impact_analysis engine));
    tools = format_tool_definitions (llm_tool_definitions defs);
  })

  unfoldable pub build_request_payload :
      Json Value
      → List (ToolDef Value)
      → (model participant : String) → ConsensusEngine
      → List Value
      → Value
  unfolding build_system_prompt
  build_request_payload json defs model participant engine history =
      let system = json.object (
        ("role", json.text "system")
        ∷ ("content", json.text (build_system_prompt defs participant engine))
        ∷ []) in
      json.object (
        ("model", json.text model)
        ∷ ("messages", json.array (system ∷ history))
        ∷ ("tools", json.array (tool_definitions_json json (llm_tool_definitions defs)))
        ∷ ("tool_choice", json.text "auto")
        ∷ ("max_tokens", json.number max_completion_tokens)
        ∷ [])
