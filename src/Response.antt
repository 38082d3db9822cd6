-- ===== src/Response.antt =====
-- crates/consensus/src/response.rs: the streamed chunks of a chat completion, put together into one
-- message. A `usize` has 64 bits, so that the index of a tool call is the number that is read.
pub mod Outcomes
use prosthetic_conscience.Prelude.{
  ℕ, suc, Bool, true, false, not, ◌&&◌, String, List, [], ◌∷◌, Option, none, some, ◌==◌, string_eq,
  nat_eq, nat_ord, if◌then◌else◌, map, is_empty, push_str, is_empty_text, decimal,
}
use prosthetic_conscience.Map.{Map, get}
use prosthetic_conscience.Map.Ordered.{update}
use prosthetic_conscience.Status.{values}
use prosthetic_conscience.Json.{Json}

pub data FinishReason : Type 0 where
  stop length content_filter tool_calls function_call : FinishReason
  unknown : String → FinishReason

pub record RawToolFunction : Type 0 where
  pub name : String
  pub arguments : String

pub record RawToolCall : Type 0 where
  pub id : String
  pub call_type : String
  pub function : RawToolFunction

pub record CompletedAssistantMessage : Type 0 where
  pub content : Option String
  pub tool_calls : List RawToolCall
  pub finish_reason : Option FinishReason

abbrev pub new_with_type : (id call_type function_name arguments : String) → RawToolCall
new_with_type id call_type function_name arguments = record {
  id = id;
  call_type = call_type;
  function = record { name = function_name; arguments = arguments };
}

abbrev pub new : (id function_name arguments : String) → RawToolCall
new id function_name arguments = new_with_type id "function" function_name arguments

pub data AssemblerError : Type 0 where
  empty : AssemblerError
  missing_choices : (index : ℕ) → AssemblerError
  empty_choices : (index : ℕ) → AssemblerError
  unexpected_role : (role : String) → AssemblerError

-- `error.to_string()`, by the attributes of the variants.
unfoldable pub error_text : AssemblerError → String
error_text empty = "no chunks to assemble"
error_text (missing_choices index) =
    push_str "chunk " (push_str (decimal index) " missing 'choices' array")
error_text (empty_choices index) =
    push_str "chunk " (push_str (decimal index) " has empty 'choices' array")
error_text (unexpected_role role) = push_str "unexpected role in chat completion response: " role

pub data Result (A : Type 0) : Type 0 where
  ok : A → Result A
  err : AssemblerError → Result A

pub record ToolCallAccumulator : Type 0 where
  pub id : String
  pub call_type : String
  pub function_name : String
  pub arguments_json : String

abbrev pub no_call : ToolCallAccumulator
no_call = record { id = ""; call_type = ""; function_name = ""; arguments_json = "" }

-- The variables of the loop over the chunks.
pub record Assembly : Type 0 where
  pub role : String
  pub content : Option String
  pub finish_reason : Option FinishReason
  pub calls : Map ℕ ToolCallAccumulator

abbrev pub no_assembly : Assembly
no_assembly = record { role = ""; content = none; finish_reason = none; calls = [] }

unfoldable pub parse_finish_reason : String → FinishReason
parse_finish_reason reason =
    if reason == "stop"
    then stop
    else if reason == "length"
    then length
    else if reason == "content_filter"
    then content_filter
    else if reason == "tool_calls"
    then tool_calls
    else if reason == "function_call"
    then function_call
    else unknown reason

-- A text that is taken once: the first that is there and not empty.
abbrev pub take_first : String → Option String → String
take_first current none = current
take_first current (some text) =
    if is_empty_text current && not (is_empty_text text) then push_str current text else current

-- A text that is put together from its fragments.
abbrev pub push_fragment : String → Option String → String
push_fragment current none = current
push_fragment current (some text) = push_str current text

abbrev pub push_content : Option String → Option String → Option String
push_content content none = content
push_content none (some text) = some text
push_content (some content) (some text) = some (push_str content text)

-- `unwrap_or`.
abbrev pub unwrap_or : {A : Type 0} → A → Option A → A
unwrap_or a none = a
unwrap_or a (some b) = b

module _ {Value : Type 0} (json : Json Value) where
  -- `v.get(key).and_then(Value::as_str)`, and so on.
  abbrev pub str_at : Value → String → Option String
  str_at v key = elim (json.get v key) [ none ↦ none | some member ↦ json.as_str member ]

  abbrev pub u64_at : Value → String → Option ℕ
  u64_at v key = elim (json.get v key) [ none ↦ none | some member ↦ json.as_u64 member ]

  abbrev pub array_at : Value → String → Option (List Value)
  array_at v key = elim (json.get v key) [ none ↦ none | some member ↦ json.as_array member ]

  -- The function that a fragment of a tool call names.
  unfoldable pub push_function : ToolCallAccumulator → Value → ToolCallAccumulator
  push_function acc tc = elim (json.get tc "function") [
    | none ↦ acc
    | some func ↦ record acc {
      function_name = take_first acc.function_name (str_at func "name");
      arguments_json = push_fragment acc.arguments_json (str_at func "arguments");
    }
  ]

  unfoldable pub push_call : ToolCallAccumulator → Value → ToolCallAccumulator
  unfolding push_function
  push_call acc tc =
      push_function
        (record acc {
          id = take_first acc.id (str_at tc "id");
          call_type = take_first acc.call_type (str_at tc "type");
        })
        tc

  -- The loop over the fragments of tool calls.
  unfoldable pub push_calls : Map ℕ ToolCallAccumulator → List Value → Map ℕ ToolCallAccumulator
  unfolding push_call
  push_calls calls [] = calls
  push_calls calls (tc ∷ tcs) =
      let tc_index = unwrap_or 0 (u64_at tc "index") in
      push_calls (update calls tc_index (push_call (unwrap_or no_call (get calls tc_index)) tc)) tcs

  -- What the first choice of a chunk adds. Without a delta the chunk is passed over.
  unfoldable pub push_choice : Assembly → Value → Assembly
  unfolding push_calls parse_finish_reason
  push_choice a choice = elim (json.get choice "delta") [
    | none ↦ a
    | some delta ↦ record {
      role = take_first a.role (str_at delta "role");
      content = push_content a.content (str_at delta "content");
      calls = push_calls a.calls (unwrap_or [] (array_at delta "tool_calls"));
      finish_reason = elim (str_at choice "finish_reason") [
        | none ↦ a.finish_reason
        | some reason ↦ some (parse_finish_reason reason)
      ];
    }
  ]

  -- The loop over the chunks from number `chunk_idx` on.
  unfoldable pub push_chunks : ℕ → Assembly → List Value → Result Assembly
  unfolding push_choice
  push_chunks chunk_idx a [] = ok a
  push_chunks chunk_idx a (chunk ∷ chunks) = elim (array_at chunk "choices") [
    | none ↦ err (missing_choices chunk_idx)
    | some [] ↦ err (empty_choices chunk_idx)
    | some (choice ∷ choices) ↦ push_chunks (suc chunk_idx) (push_choice a choice) chunks
  ]

abbrev pub completed : Assembly → CompletedAssistantMessage
completed a = record {
  content = a.content;
  tool_calls =
      map (λ acc. new_with_type acc.id acc.call_type acc.function_name acc.arguments_json)
        (values a.calls);
  finish_reason = a.finish_reason;
}

-- What stands behind the loop: the test of the role.
unfoldable pub close : Result Assembly → Result CompletedAssistantMessage
close (err error) = err error
close (ok a) =
    if not (is_empty_text a.role) && not (a.role == "assistant")
    then err (unexpected_role a.role)
    else ok (completed a)

module _ {Value : Type 0} (json : Json Value) where
  unfoldable pub assemble : List Value → Result CompletedAssistantMessage
  unfolding push_chunks close
  assemble chunks =
      if is_empty chunks then err empty else close (push_chunks json 0 no_assembly chunks)

  abbrev pub call_value : RawToolCall → Value
  call_value tc = json.object (
      ("id", json.text tc.id)
      ∷ ("type", json.text tc.call_type)
      ∷ (
        "function",
        json.object (
            ("name", json.text tc.function.name)
            ∷ ("arguments", json.text tc.function.arguments)
            ∷ []),
      )
      ∷ [])

  abbrev pub text_or_null : Option String → Value
  text_or_null none = json.null
  text_or_null (some content) = json.text content

  unfoldable pub assistant_message_value : CompletedAssistantMessage → Value
  assistant_message_value msg =
      if is_empty msg.tool_calls
      then json.object
          (("role", json.text "assistant") ∷ ("content", json.text (unwrap_or "" msg.content)) ∷ [])
      else json.object (
          ("role", json.text "assistant")
          ∷ ("content", text_or_null msg.content)
          ∷ ("tool_calls", json.array (map call_value msg.tool_calls))
          ∷ [])

  unfoldable pub tool_result_message : (tool_call_id content : String) → Value
  tool_result_message tool_call_id content = json.object (
      ("role", json.text "tool")
      ∷ ("tool_call_id", json.text tool_call_id)
      ∷ ("content", json.text content)
      ∷ [])
