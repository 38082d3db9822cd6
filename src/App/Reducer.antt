-- ===== src/App/Reducer.antt =====
-- The reducer of crates/consensus/src/app.rs, with what is sent to the model.
use prosthetic_conscience.Prelude.{
  ℕ, String, List, [], ◌∷◌, ◌++◌, Option, none, some, if◌then◌else◌, map,
}
use prosthetic_conscience.Json.{Json}
use prosthetic_conscience.Types.{Entry}
use prosthetic_conscience.Coordinator
use prosthetic_conscience.Drafts
use prosthetic_conscience.Response.{RawToolCall}
use prosthetic_conscience.Conversation
use prosthetic_conscience.Conversation.{
  history_to_json, truncate_history, with_tool_results, RequestIntent, chat_completion,
  execute_tool_calls as call_tools, ToolResult,
}
use prosthetic_conscience.Format.Errors.{engine_error_text}
use prosthetic_conscience.App.Prompt.{ToolDef, tool_definitions_json, build_system_prompt}
use prosthetic_conscience.App.{
  State, Event, conversation_event, drafts_event, coordinator_event, Effect, conversation_effect,
  coordinator_effect, request_chat_completion, Transition, ToolOutput, draft_claim_output,
  draft_relation_output, draft_stance_output, draft_resolve_output, draft_comment_output,
  remove_draft_output, ToolCallError, decode, execution, ToolCallOutcome, success, failure,
  ToolExecution, execute_tool_calls,
}

-- What `error.to_string()` gives.
unfoldable pub tool_call_error_message : ToolCallError → String
tool_call_error_message (decode error) = error.message
tool_call_error_message (execution error) = engine_error_text error

module _ {Value : Type 0} (json : Json Value) (to_value : ToolOutput → Option Value) where
  -- `to_tool_result_value`: the value of an output, or an object that tells of the failure.
  abbrev pub to_tool_result_value : Option Value → Value
  to_tool_result_value (some value) = value
  to_tool_result_value none =
      json.object (("error", json.text "failed to serialize tool result") ∷ [])

  abbrev draft_id_value : ℕ → Value
  draft_id_value draft_id = json.object (("draft_id", json.number draft_id) ∷ [])

  unfoldable pub tool_output_value : ToolOutput → Value
  tool_output_value (draft_claim_output draft_id) = draft_id_value draft_id
  tool_output_value (draft_relation_output draft_id) = draft_id_value draft_id
  tool_output_value (draft_stance_output draft_id) = draft_id_value draft_id
  tool_output_value (draft_resolve_output draft_id) = draft_id_value draft_id
  tool_output_value (draft_comment_output draft_id) = draft_id_value draft_id
  tool_output_value (remove_draft_output draft_id) =
      json.object (("removed", json.number draft_id) ∷ [])
  tool_output_value output = to_tool_result_value (to_value output)

  abbrev outcome_value : ToolCallOutcome → Value
  outcome_value (success output) = tool_output_value output
  outcome_value (failure error) =
      json.object (("error", json.text (tool_call_error_message error)) ∷ [])

  abbrev or_failed : Option String → String
  or_failed (some text) = text
  or_failed none = "{\"error\":\"failed to serialize tool result\"}"

  unfoldable pub format_tool_call_outcome : ToolCallOutcome → String
  unfolding tool_output_value tool_call_error_message
  format_tool_call_outcome outcome = or_failed (json.to_string_pretty (outcome_value outcome))

  abbrev pub tool_execution_to_tool_result : ToolExecution → ToolResult
  tool_execution_to_tool_result done = record {
    tool_call_id = done.call_id;
    content = format_tool_call_outcome done.outcome;
  }

  module _ (tool_definitions : List (ToolDef Value)) where
    unfoldable pub build_request_payload : State → Value
    build_request_payload state =
        let config = state.conversation_config in
        let truncated_history =
          truncate_history json (history_to_json json state.conversation.history)
            config.max_history in
        let system = json.object (
          ("role", json.text "system")
          ∷ ("content", json.text (build_system_prompt tool_definitions state))
          ∷ []) in
        json.object (
          ("model", json.text config.model)
          ∷ ("messages", json.array (system ∷ truncated_history))
          ∷ ("tools", json.array (tool_definitions_json json tool_definitions))
          ∷ ("tool_choice", json.text "auto")
          ∷ ("max_tokens", json.number config.max_tokens)
          ∷ [])

    unfoldable pub reduce_execute_tool_calls :
        State → List RawToolCall → List (Effect Value) → Transition Value
    unfolding execute_tool_calls format_tool_call_outcome build_request_payload
    reduce_execute_tool_calls state calls effects =
        let batch = execute_tool_calls json state calls in
        let next : State = record batch.state {
          conversation =
              with_tool_results batch.state.conversation
                (map tool_execution_to_tool_result batch.outcomes);
        } in
        record {
          state = next;
          effects =
              if batch.domain_mutated
              then effects
              else effects ++ request_chat_completion (build_request_payload next) ∷ [];
        }

    -- The `match` on what the conversation requests.
    unfoldable pub answer_request :
        State → List (Effect Value) → Option RequestIntent → Transition Value
    unfolding reduce_execute_tool_calls
    answer_request state effects none = record { state = state; effects = effects }
    answer_request state effects (some chat_completion) = record {
      state = state;
      effects = effects ++ request_chat_completion (build_request_payload state) ∷ [];
    }
    answer_request state effects (some (call_tools calls)) =
        reduce_execute_tool_calls state calls effects

    unfoldable pub reduce_conversation_event : State → Conversation.Event Value → Transition Value
    unfolding answer_request
    reduce_conversation_event state event =
        let transition = Conversation.reduce json state.conversation event in
        answer_request (record state { conversation = transition.state })
          (map conversation_effect transition.effects) transition.request

    -- The drafts have no effects.
    unfoldable pub reduce_drafts_event : State → Drafts.Event → Transition Value
    reduce_drafts_event state event = record {
      state = record state { drafts = (Drafts.reduce state.drafts event).state };
      effects = [];
    }

    unfoldable pub reduce_coordinator_event : State → Coordinator.Event Entry → Transition Value
    reduce_coordinator_event state event =
        let transition = Coordinator.reduce state.coordinator event in
        record {
          state = record state { coordinator = transition.state };
          effects = map coordinator_effect transition.effects;
        }

    unfoldable pub reduce : State → Event Value → Transition Value
    unfolding reduce_conversation_event reduce_drafts_event reduce_coordinator_event
    reduce state (conversation_event event) = reduce_conversation_event state event
    reduce state (drafts_event event) = reduce_drafts_event state event
    reduce state (coordinator_event event) = reduce_coordinator_event state event
