-- ===== src/Conversation.antt =====
-- crates/consensus/src/conversation.rs: the turns of the conversation with the model, and what of
-- them is sent to it.
pub mod Truncation
use prosthetic_conscience.Prelude.{
  ℕ, zero, suc, ◌+◌, ◌-◌, Bool, true, false, not, ◌&&◌, ◌||◌, String, List, [], ◌∷◌, ◌++◌, Option,
  none, some, ◌==◌, string_eq, if◌then◌else◌, map, is_empty, length, drop, ltb, leb, get_elem?,
}
use prosthetic_conscience.Json.{Json}
use prosthetic_conscience.Response.{
  RawToolCall, CompletedAssistantMessage, AssemblerError, error_text, Result, ok, err, assemble,
  unwrap_or, str_at, array_at, call_value, text_or_null,
}

pub data Message : Type 0 where
  user : (content : String) → Message
  assistant : (content : Option String) (tool_calls : List RawToolCall) → Message
  tool : (tool_call_id content : String) → Message

pub record State : Type 0 where
  pub history : List Message

pub data Event (Value : Type 0) : Type 0 where
  user_prompt_received : (content : String) → Event Value
  chat_completion_received : (chunks : List Value) → Event Value

pub data Effect : Type 0 where
  chat_completion_decode_failed : (error : String) → Effect

pub data RequestIntent : Type 0 where
  chat_completion : RequestIntent
  execute_tool_calls : List RawToolCall → RequestIntent

pub record Transition : Type 0 where
  pub state : State
  pub effects : List Effect
  pub request : Option RequestIntent

pub record ToolResult : Type 0 where
  pub tool_call_id : String
  pub content : String

abbrev pub init : State
init = record { history = [] }

-- `view` and `history` give the messages of the state.
pub record View : Type 0 where
  pub history : List Message

abbrev pub view : State → View
view state = record { history = state.history }

abbrev pub tool_message : ToolResult → Message
tool_message result = tool result.tool_call_id result.content

abbrev pub with_tool_results : State → List ToolResult → State
with_tool_results state results = record state {
  history = state.history ++ map tool_message results;
}

abbrev pub map_assistant_message : CompletedAssistantMessage → Message
map_assistant_message message = assistant message.content message.tool_calls

abbrev pub requested_calls : List RawToolCall → Option RequestIntent
requested_calls [] = none
requested_calls (call ∷ calls) = some (execute_tool_calls (call ∷ calls))

-- The arms of `reduce_event` for a completion.
abbrev pub completion_arm : State → Result CompletedAssistantMessage → Transition
completion_arm state (ok message) = record {
  state = record state { history = state.history ++ map_assistant_message message ∷ [] };
  effects = [];
  request = requested_calls message.tool_calls;
}
completion_arm state (err error) = record {
  state = state;
  effects = chat_completion_decode_failed (error_text error) ∷ [];
  request = none;
}

module _ {Value : Type 0} (json : Json Value) where
  -- `reduce`, and `reduce_event`, which it calls.
  unfoldable pub reduce : State → Event Value → Transition
  unfolding assemble error_text
  reduce state (user_prompt_received content) = record {
    state = record state { history = state.history ++ user content ∷ [] };
    effects = [];
    request = some chat_completion;
  }
  reduce state (chat_completion_received chunks) = completion_arm state (assemble json chunks)

  unfoldable pub message_to_json : Message → Value
  message_to_json (user content) =
      json.object (("role", json.text "user") ∷ ("content", json.text content) ∷ [])
  message_to_json (assistant content tool_calls) =
      if is_empty tool_calls
      then json.object
          (("role", json.text "assistant") ∷ ("content", json.text (unwrap_or "" content)) ∷ [])
      else json.object (
          ("role", json.text "assistant")
          ∷ ("content", text_or_null json content)
          ∷ ("tool_calls", json.array (map (call_value json) tool_calls))
          ∷ [])
  message_to_json (tool tool_call_id content) = json.object (
      ("role", json.text "tool")
      ∷ ("tool_call_id", json.text tool_call_id)
      ∷ ("content", json.text content)
      ∷ [])

  abbrev pub history_to_json : List Message → List Value
  history_to_json history = map message_to_json history

  abbrev pub has_elements : Option (List Value) → Bool
  has_elements none = false
  has_elements (some values) = not (is_empty values)

  -- Where a truncated history may begin: at a user, or at an assistant that calls no tools.
  unfoldable pub is_start : Value → Bool
  is_start value =
      let role = unwrap_or "" (str_at json value "role") in
      let has_tool_calls = has_elements (array_at json value "tool_calls") in
      role == "user" || role == "assistant" && not has_tool_calls

  -- The loop that moves the cut: `values` is the history from `cut` on.
  unfoldable pub find_cut : ℕ → List Value → ℕ
  unfolding is_start
  find_cut cut [] = cut
  find_cut cut (value ∷ values) =
      let rest = find_cut (suc cut) values in if is_start value then cut else rest

  unfoldable pub truncate_history : List Value → ℕ → List Value
  unfolding find_cut
  truncate_history history max =
      let excess = length history - max in
      let cut = find_cut excess (drop excess history) in
      if leb (length history) max
      then history
      else if ltb 0 cut && ltb cut (length history)
      then drop cut history
      else history
