-- ===== src/App/Composition.antt =====
-- The application of app.rs on top of the coordinator: what a participant sees of the session log.
use prosthetic_conscience.Prelude.{
  ℕ, ◌+◌, ◌<◌, ◌≡◌, refl, ap, ◌∙◌, true, String, List, [], ◌∷◌, Option, none, some, length, u64_mod,
  arith,
}
use prosthetic_conscience.Json.{Json}
use prosthetic_conscience.Types.{Entry}
use prosthetic_conscience.Coordinator
use prosthetic_conscience.Coordinator.{committed_prefix, requested, received, run, sync_to_latest}
use prosthetic_conscience.Coordinator.Prefix.{IsFrom, Delivers, is_delivered, committed_prefix-from}
use prosthetic_conscience.Coordinator.Slots.{get_elem?-sync_to_latest}
use prosthetic_conscience.Conversation
use prosthetic_conscience.Conversation.{
  RequestIntent, chat_completion, execute_tool_calls as call_tools,
}
use prosthetic_conscience.Preview.{overview_from_entries}
use prosthetic_conscience.App.{
  State, ConversationConfig, Event, conversation_event, drafts_event, coordinator_event, Effect,
  ToolOutput, coordinator_page_limit, init, overview,
}
use prosthetic_conscience.App.Frames.{batch-Frames}
use prosthetic_conscience.App.Prompt.{ToolDef}
use prosthetic_conscience.App.Reducer.{
  reduce_execute_tool_calls, answer_request, reduce_conversation_event, reduce_drafts_event,
  reduce_coordinator_event, reduce,
}

-- The events for the coordinator, in their order.
abbrev pub arrivals : {Value : Type 0} → List (Event Value) → List (Coordinator.Event Entry)
arrivals [] = []
arrivals (conversation_event event ∷ events) = arrivals events
arrivals (drafts_event event ∷ events) = arrivals events
arrivals (coordinator_event event ∷ events) = event ∷ arrivals events

-- No latest index, or one that is not the last machine word.
abbrev pub HasRoom : Option ℕ → Type 0
HasRoom none = Unit
HasRoom (some latest) = latest + 1 < u64_mod

start-IsFrom :
    (log : List Entry) (latest : Option ℕ)
    → HasRoom latest
    → IsFrom log (sync_to_latest (Coordinator.empty coordinator_page_limit) latest).state.slots
unfolding sync_to_latest
start-IsFrom log none room i entry h = cc
start-IsFrom log (some latest) room i entry h = absurd (
    ground (
      arith,
      get_elem?-sync_to_latest {T = Entry} (Coordinator.empty coordinator_page_limit) latest i room,
      h,
    ))

module _ {Value : Type 0} (json : Json Value) (to_value : ToolOutput → Option Value)
    (tool_definitions : List (ToolDef Value)) where
  abbrev pub next : State → Event Value → State
  next s event = (reduce json to_value tool_definitions s event).state

  -- The state after events, in turn.
  abbrev pub run_events : State → List (Event Value) → State
  run_events s [] = s
  run_events s (event ∷ events) = run_events (next s event) events

  answer-coordinator :
      (s : State) (effects : List (Effect Value)) (request : Option RequestIntent)
      → (answer_request json to_value tool_definitions s effects request).state.coordinator
        ≡ s.coordinator
  unfolding answer_request reduce_execute_tool_calls
  answer-coordinator s effects none = refl
  answer-coordinator s effects (some chat_completion) = refl
  answer-coordinator s effects (some (call_tools calls)) =
      ap (λ x. x.coordinator) (batch-Frames json s calls).0

  run_events-coordinator :
      (s : State) (events : List (Event Value))
      → (run_events s events).coordinator ≡ run s.coordinator (arrivals events)
  unfolding reduce reduce_conversation_event reduce_drafts_event reduce_coordinator_event
  run_events-coordinator s [] = refl
  run_events-coordinator s (conversation_event event ∷ events) =
      let t = Conversation.reduce json s.conversation event in
      run_events-coordinator (next s (conversation_event event)) events
      ∙ ap (λ c. run c (arrivals events))
          (answer-coordinator (record s { conversation = t.state }) _ t.request)
  run_events-coordinator s (drafts_event event ∷ events) =
      run_events-coordinator (next s (drafts_event event)) events
  run_events-coordinator s (coordinator_event event ∷ events) =
      run_events-coordinator (next s (coordinator_event event)) events

  -- For a log shorter than 2 ^ 64, once every entry of the log has been delivered at its index to
  -- a new application, in any order, with any repetition and between any other events, tool calls
  -- of the model included, the overview is that of the whole log. The latest index that the
  -- application starts with, if there is one, is not the last machine word.
  pub overview-run_events :
      (log : List Entry) (participant : String) (latest : Option ℕ) (config : ConversationConfig)
      (events : List (Event Value))
      → length log < u64_mod
      → HasRoom latest
      → Delivers log (arrivals events)
      → ((i : ℕ) → i < length log → is_delivered i (arrivals events) ≡ true)
      → overview (run_events (init {Value = Value} participant latest config).state events)
        ≡ overview_from_entries log
  unfolding overview init
  overview-run_events log participant latest config events room space d all_there =
      let start = (init {Value = Value} participant latest config).state in
      ap overview_from_entries (
        ap committed_prefix (run_events-coordinator start events)
        ∙ committed_prefix-from log start.coordinator (arrivals events) room
            (start-IsFrom log latest space) d all_there)
