-- ===== src/App/Events.antt =====
-- What app.rs does to the conversation: every prompt and every batch of tool calls is answered.
use mathlib.Core.List.{append-nil}
use prosthetic_conscience.Prelude.{
  ◌≡◌, refl, sym, ap, String, List, [], ◌∷◌, ◌++◌, Option, none, some, ◌⊎◌, inl, inr, Option-cases,
  map, if◌then◌else◌, is_empty, ◌||◌,
}
use prosthetic_conscience.Json.{Json}
use prosthetic_conscience.Response.{
  FinishReason, RawToolCall, CompletedAssistantMessage, Result, ok, err, error_text, assemble,
}
use prosthetic_conscience.Conversation
use prosthetic_conscience.Conversation.{
  Message, user, assistant, tool, user_prompt_received, chat_completion_received,
  chat_completion_decode_failed, tool_message, completion_arm,
}
use prosthetic_conscience.App.{
  State, Transition, conversation_event, conversation_effect, request_chat_completion, ToolOutput,
  ToolCallOutcome, success, failure, ToolExecution, execute_tool_calls,
}
use prosthetic_conscience.App.Frames.{batch-Frames, batch-ids}
use prosthetic_conscience.App.Prompt.{ToolDef}
use prosthetic_conscience.App.Reducer.{
  build_request_payload, tool_execution_to_tool_result, reduce_execute_tool_calls, answer_request,
  reduce_conversation_event, reduce, format_tool_call_outcome, tool_output_value,
  tool_call_error_message,
}

module _ {Value : Type 0} (json : Json Value) (to_value : ToolOutput → Option Value)
    (tool_definitions : List (ToolDef Value)) where
  -- The content of a message for an outcome: the text of the output's value, or of an object with
  -- the message of the error; if that has no text, one that says so.
  abbrev pub outcome_json : ToolCallOutcome → Value
  outcome_json (success output) = tool_output_value json to_value output
  outcome_json (failure error) =
      json.object (("error", json.text (tool_call_error_message error)) ∷ [])

  abbrev pub IsShown : ToolCallOutcome → String → Type 0
  IsShown outcome content =
      ((json.to_string_pretty (outcome_json outcome) ≡ none)
        × (content ≡ "{\"error\":\"failed to serialize tool result\"}"))
      ⊎ (json.to_string_pretty (outcome_json outcome) ≡ some content)

  -- The messages answer the executed calls, one for each, in their order, with what came of each.
  abbrev pub AreResults : List ToolExecution → List Message → Type 0
  AreResults [] [] = Unit
  AreResults (x ∷ outcomes) (tool tool_call_id content ∷ messages) =
      (tool_call_id ≡ x.call_id) × IsShown x.outcome content × AreResults outcomes messages
  AreResults _ _ = ⊥

  format_tool_call_outcome-IsShown :
      (outcome : ToolCallOutcome) → IsShown outcome (format_tool_call_outcome json to_value outcome)
  unfolding format_tool_call_outcome
  format_tool_call_outcome-IsShown outcome =
      elim (Option-cases (json.to_string_pretty (outcome_json outcome))) [
        | inl g ↦ inl (g, rw (g) refl)
        | inr (text, g) ↦ inr (rw (g) refl)
      ]

  outcomes-AreResults :
      (outcomes : List ToolExecution)
      → AreResults outcomes
          (map tool_message (map (tool_execution_to_tool_result json to_value) outcomes))
  outcomes-AreResults [] = tt
  outcomes-AreResults (x ∷ outcomes) =
      (refl, format_tool_call_outcome-IsShown x.outcome, outcomes-AreResults outcomes)

  -- The conversation after a completion has arrived.
  abbrev pub with_completion : State → CompletedAssistantMessage → State
  with_completion s message = record s {
    conversation = record {
      history = s.conversation.history ++ assistant message.content message.tool_calls ∷ [];
    };
  }

  -- A message is added, its calls are executed on the state with it, and the results are added, one
  -- for each call; the rest of the state is what the execution left. A completion is requested if
  -- there are calls and none of them has changed the drafts. An error is reported, and that is all.
  abbrev pub IsTaken : State → Transition Value → Result CompletedAssistantMessage → Type 0
  IsTaken s t (err error) =
      (t.state ≡ s)
      × (t.effects ≡ conversation_effect (chat_completion_decode_failed (error_text error)) ∷ [])
  IsTaken s t (ok message) =
      let before = with_completion s message in
      let batch = execute_tool_calls json before message.tool_calls in
      (results : List Message) × (t.state ≡ record batch.state {
        conversation = record { history = before.conversation.history ++ results };
      })
      × AreResults batch.outcomes results
      × (map (λ x. x.call_id) batch.outcomes ≡ map (λ x. x.id) message.tool_calls)
      × (t.effects ≡ (
          if is_empty message.tool_calls || batch.domain_mutated
          then []
          else request_chat_completion
              (build_request_payload json to_value tool_definitions t.state)
            ∷ []))

  -- A prompt is added, and a completion is requested.
  abbrev pub IsAnswered : State → Conversation.Event Value → Transition Value → Type 0
  IsAnswered s (user_prompt_received content) t =
      (t.state ≡ record s {
        conversation = record { history = s.conversation.history ++ user content ∷ [] };
      })
      × (t.effects
          ≡ request_chat_completion (build_request_payload json to_value tool_definitions t.state)
            ∷ [])
  IsAnswered s (chat_completion_received chunks) t = IsTaken s t (assemble json chunks)

  -- The transition for an assembled result.
  abbrev taken : State → Result CompletedAssistantMessage → Transition Value
  taken s r =
      let t = completion_arm s.conversation r in
      answer_request json to_value tool_definitions (record s { conversation = t.state })
        (map conversation_effect t.effects) t.request

  message-IsTaken :
      (s : State) (content : Option String) (calls : List RawToolCall)
      (finish_reason : Option FinishReason)
      → let message : CompletedAssistantMessage = record {
        content = content;
        tool_calls = calls;
        finish_reason = finish_reason;
      } in
        IsTaken s (taken s (ok message)) (ok message)
  unfolding answer_request reduce_execute_tool_calls
  message-IsTaken s content [] finish_reason = (
    [],
    ap {A = List Message} {B = State} (λ h. record s { conversation = record { history = h } })
        (sym (append-nil _)),
    tt,
    refl,
    refl,
  )
  message-IsTaken s content (call ∷ calls) finish_reason =
      let message : CompletedAssistantMessage = record {
        content = content;
        tool_calls = call ∷ calls;
        finish_reason = finish_reason;
      } in
      let before = with_completion s message in
      let batch = execute_tool_calls json before (call ∷ calls) in
      let (frame, quiet) = batch-Frames json before (call ∷ calls) in
      (
        map tool_message (map (tool_execution_to_tool_result json to_value) batch.outcomes),
        ap {A = State} {B = State}
            (λ x. record batch.state {
              conversation = record {
                history =
                    x.conversation.history
                    ++ map tool_message
                        (map (tool_execution_to_tool_result json to_value) batch.outcomes);
              };
            })
            frame,
        outcomes-AreResults batch.outcomes,
        batch-ids json before (call ∷ calls),
        refl,
      )

  taken-IsTaken : (s : State) (r : Result CompletedAssistantMessage) → IsTaken s (taken s r) r
  unfolding answer_request
  taken-IsTaken s (ok message) =
      message-IsTaken s message.content message.tool_calls message.finish_reason
  taken-IsTaken s (err error) = (refl, refl)

  -- Every event of the conversation is answered. A prompt is added and a completion is requested.
  -- A message of the assistant is added and its tool calls are executed; the state is what the
  -- execution leaves, with a message behind for each call, in their order, that has the
  -- identifier of the call and the text of the JSON of what came of it, or says that there is
  -- none; and a completion is requested if there were calls and none has changed the drafts.
  -- Chunks that are no message change nothing and are reported.
  pub reduce-IsAnswered :
      (s : State) (event : Conversation.Event Value)
      → IsAnswered s event (reduce json to_value tool_definitions s (conversation_event event))
  unfolding reduce reduce_conversation_event Conversation.reduce answer_request
  reduce-IsAnswered s (user_prompt_received content) = (refl, refl)
  reduce-IsAnswered s (chat_completion_received chunks) = taken-IsTaken s (assemble json chunks)
