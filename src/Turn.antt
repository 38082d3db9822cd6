-- ===== src/Turn.antt =====
-- crates/consensus/src/llm_turn.rs: the rounds of a turn of the model over the engine. The engine
-- and the history, which are changed in place, stand beside the result. The tool definitions, which
-- are prose, and the serialization that `serde` derives are parameters.
pub mod Trace
pub mod Confirmation
pub mod Tools
pub mod Calls
pub mod Rounds
use prosthetic_conscience.Prelude.{
  ℕ, suc, ◌+◌, Bool, true, false, ◌&&◌, ◌||◌, not, String, List, [], ◌∷◌, ◌++◌, Option, none, some,
  if◌then◌else◌, is_some, is_empty, length, leb, decimal, concat, push_str,
}
use prosthetic_conscience.Json.{Json, Parsed, parsed, failed}
use prosthetic_conscience.Response
use prosthetic_conscience.Response.{
  RawToolCall, CompletedAssistantMessage, AssemblerError, assemble, assistant_message_value,
  tool_result_message,
}
use prosthetic_conscience.Conversation.{truncate_history}
use prosthetic_conscience.Engine.{ConsensusEngine}
use prosthetic_conscience.ToolDispatch.{Shown, Step, dispatch}
use prosthetic_conscience.ToolDispatch.Arguments.{Result, ok, err, tool_error_text}
use prosthetic_conscience.App.Prompt.{ToolDef}
use prosthetic_conscience.Turn.Trace.{
  ToolExecutionTrace, LlmRoundTrace, TurnStep, final, needs_request, max_rounds_exceeded,
  TurnConfig, is_draft_mutation_tool, build_request_payload,
}
use prosthetic_conscience.Turn.Confirmation.{synthesize_mutation_follow_up}

abbrev pub max_tool_rounds : ℕ
max_tool_rounds = 8

pub data Outcome (Value : Type 0) : Type 0 where
  step : TurnStep Value → Outcome Value
  process_response_error : AssemblerError → Outcome Value

pub record Processed (Value : Type 0) : Type 0 where
  pub engine : ConsensusEngine
  pub history : List Value
  pub outcome : Outcome Value

-- The variables of the loop over the tool calls.
pub record Dispatched (Value : Type 0) : Type 0 where
  pub engine : ConsensusEngine
  pub history : List Value
  pub tool_results : List (ToolExecutionTrace Value)
  pub mutated_drafts : Bool

module _ {Value : Type 0} (json : Json Value) (to_value : Shown → Parsed Value) where
  abbrev or_failed : Option String → String
  or_failed (some text) = text
  or_failed none = "{\"error\":\"failed to serialize tool result\"}"

  abbrev error_content : String → String
  error_content error = concat ("{\"error\":\"" ∷ error ∷ "\"}" ∷ [])

  -- The content of a tool's message, and the error of the dispatch, if there is one.
  abbrev pub answer : Result Value → String × Option String
  answer (ok value) = (or_failed (json.to_string_pretty value), none)
  answer (err error) = (error_content (tool_error_text error), some (tool_error_text error))

  abbrev pub refusal : String → String × Option String
  refusal error =
      let message = push_str "invalid tool call arguments: " error in
      (error_content message, some message)

  -- The arms on the arguments of a call: the engine, the content and the error.
  abbrev pub run_call :
      ConsensusEngine → String → Parsed Value → ConsensusEngine × String × Option String
  run_call engine name (failed error) = (engine, (refusal error).0, (refusal error).1)
  run_call engine name (parsed arguments) =
      let (next, result) = dispatch json to_value engine name arguments in
      (next, (answer result).0, (answer result).1)

  abbrev value_of : Parsed Value → Option Value
  value_of (parsed value) = some value
  value_of (failed error) = none

  abbrev error_of : Parsed Value → Option String
  error_of (parsed value) = none
  error_of (failed error) = some error

  -- The body of the loop.
  unfoldable pub dispatch_call : Dispatched Value → RawToolCall → Dispatched Value
  unfolding dispatch tool_error_text
  dispatch_call d call =
      let arguments = json.from_str call.function.arguments in
      let (next, content, dispatch_error) = run_call d.engine call.function.name arguments in
      record {
        engine = next;
        history = d.history ++ tool_result_message json call.id content ∷ [];
        tool_results =
            d.tool_results
            ++ record {
              call_id = call.id;
              function_name = call.function.name;
              arguments_json = call.function.arguments;
              parsed_arguments = value_of arguments;
              argument_parse_error = error_of arguments;
              tool_result_content = content;
              dispatch_error = dispatch_error;
            }
              ∷ [];
        mutated_drafts =
            d.mutated_drafts
            || not (is_some dispatch_error) && is_draft_mutation_tool call.function.name;
      }

  unfoldable pub dispatch_calls : Dispatched Value → List RawToolCall → Dispatched Value
  unfolding dispatch_call
  dispatch_calls d [] = d
  dispatch_calls d (call ∷ calls) = dispatch_calls (dispatch_call d call) calls

  module _ (tool_definitions : List (ToolDef Value)) (config : TurnConfig) where
    -- What stands behind the loop: a confirmation, or the next request.
    unfoldable pub close_round : LlmRoundTrace Value → Dispatched Value → Processed Value
    unfolding synthesize_mutation_follow_up build_request_payload
    close_round trace d =
        let done : LlmRoundTrace Value = record trace { tool_results = d.tool_results } in
        let final_message = synthesize_mutation_follow_up json d.engine d.tool_results in
        let kept = truncate_history json d.history config.max_history in
        if d.mutated_drafts
        then record {
          engine = d.engine;
          history = d.history ++ assistant_message_value json final_message ∷ [];
          outcome = step (final final_message done);
        }
        else record {
          engine = d.engine;
          history = kept;
          outcome = step (
              needs_request
                (build_request_payload json tool_definitions config.model config.participant
                  d.engine kept)
                done);
        }

    -- The turn from the assembled message on.
    unfoldable pub process_message :
        LlmRoundTrace Value
        → ConsensusEngine
        → List Value
        → CompletedAssistantMessage
        → Processed Value
    unfolding dispatch_calls close_round
    process_message trace engine history msg =
        let said : LlmRoundTrace Value = record trace { assistant_message = some msg } in
        let told = history ++ assistant_message_value json msg ∷ [] in
        let start : Dispatched Value = record {
          engine = engine;
          history = told;
          tool_results = [];
          mutated_drafts = false;
        } in
        if is_empty msg.tool_calls
        then record { engine = engine; history = told; outcome = step (final msg said) }
        else if leb config.max_rounds config.round
        then record {
          engine = engine;
          history = told;
          outcome = step (
              max_rounds_exceeded (record said {
                error =
                    some (
                      concat ("max tool rounds (" ∷ decimal config.max_rounds ∷ ") exceeded" ∷ []));
              }));
        }
        else close_round said (dispatch_calls start msg.tool_calls)

    -- The `match` on the result of `assemble`.
    abbrev pub process_assembled :
        LlmRoundTrace Value
        → ConsensusEngine
        → List Value
        → Response.Result CompletedAssistantMessage
        → Processed Value
    process_assembled trace engine history (Response.ok msg) =
        process_message trace engine history msg
    process_assembled trace engine history (Response.err error) = record {
      engine = engine;
      history = history;
      outcome = process_response_error error;
    }

    abbrev pub new_trace : (chunks history : List Value) → LlmRoundTrace Value
    new_trace chunks history = record {
      round = config.round;
      request_history_messages = length history;
      request_messages = length history + 1;
      response_chunks = length chunks;
      assistant_message = none;
      tool_results = [];
      error = none;
    }

    unfoldable pub process_llm_response :
        List Value → ConsensusEngine → List Value → Processed Value
    unfolding process_message
    process_llm_response chunks engine history =
        process_assembled (new_trace chunks history) engine history (assemble json chunks)

  -- The history is truncated in place before it is sent.
  unfoldable pub build_initial_request :
      List (ToolDef Value)
      → (model participant : String) → ConsensusEngine
      → List Value
      → (max_history : ℕ) → List Value × Value
  unfolding build_request_payload
  build_initial_request tool_definitions model participant engine history max_history =
      let kept = truncate_history json history max_history in
      (kept, build_request_payload json tool_definitions model participant engine kept)
