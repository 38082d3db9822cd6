-- ===== src/Examples/AppTests.antt =====
-- Tests of the conversation and of the application, over the JSON values of `JsonTree`.
use prosthetic_conscience.Prelude.{
  ◌≡◌, refl, false, String, List, [], ◌∷◌, Option, none, some, length, map, arith, decimal,
  strip_prefix, parse_u64,
}
use prosthetic_conscience.Types
use prosthetic_conscience.Types.{Entry}
use prosthetic_conscience.Drafts
use prosthetic_conscience.Map.{get}
use prosthetic_conscience.Drafts.{ClaimRef, committed, draft, draft_claim}
use prosthetic_conscience.Drafts.Closed.{IsClosed}
use prosthetic_conscience.ClaimRefs.{from_text, from_json_value, serialize}
use prosthetic_conscience.ClaimRefs.RoundTrip.{claim_ref_round_trip}
use prosthetic_conscience.Format.Words.{format_claim_ref}
use prosthetic_conscience.Coordinator.{entry_received}
use prosthetic_conscience.Response
use prosthetic_conscience.Response.{
  RawToolCall, new, assemble, missing_choices, CompletedAssistantMessage,
}
use prosthetic_conscience.Response.Outcomes.{IsOutcome, assemble-IsOutcome}
use prosthetic_conscience.Conversation.{
  Message, user, assistant, tool, user_prompt_received, truncate_history, history_to_json,
  message_to_json,
}
use prosthetic_conscience.Conversation.Truncation.{IsTruncated, truncate_history-IsTruncated}
use prosthetic_conscience.Preview.{overview_from_entries}
use prosthetic_conscience.App.{
  State, ConversationConfig, Event, conversation_event, drafts_event, coordinator_event, ToolOutput,
  init, overview, execute_tool_calls,
}
use prosthetic_conscience.App.Reducer.{reduce}
use prosthetic_conscience.App.Tools.{execute_tool_calls_lem}
use prosthetic_conscience.App.Events.{IsAnswered, reduce-IsAnswered}
use prosthetic_conscience.App.Composition.{run_events, overview-run_events}
use prosthetic_conscience.Examples.JsonTree.{Tree, leaf_text, tree, tree_object, tree-IsLawful}

claim_ref_round_trip_example :
    (from_json_value tree (serialize tree (draft 7)) ≡ some (draft 7))
    × (from_json_value tree (leaf_text (format_claim_ref (draft 7))) ≡ some (draft 7))
claim_ref_round_trip_example = claim_ref_round_trip tree (draft 7) tree-IsLawful (omega arith)

draft_text : from_text "draft:12" ≡ some (draft 12)
unfolding from_text strip_prefix parse_u64
draft_text = refl

twelve : decimal 1203 ≡ "1203"
unfolding decimal
twelve = refl

-- The first message is cut off, and the answer with its tool call too.
abbrev turns : List Message
turns =
    user "hello"
    ∷ assistant none (new "c1" "overview" "{}" ∷ [])
    ∷ tool "c1" "{}"
    ∷ user "and?"
    ∷ []

truncate_history-IsTruncated_example :
    IsTruncated tree
      (history_to_json tree turns)
      3
      (truncate_history tree (history_to_json tree turns) 3)
truncate_history-IsTruncated_example =
    truncate_history-IsTruncated tree (history_to_json tree turns) 3

truncated :
    truncate_history tree (history_to_json tree turns) 3 ≡ message_to_json tree (user "and?") ∷ []
unfolding truncate_history message_to_json get
truncated = refl

abbrev delta : String → Tree
delta content = tree_object (
    (
      "choices",
      tree.array
          (tree_object (("delta", tree_object (("content", leaf_text content) ∷ [])) ∷ []) ∷ []),
    )
    ∷ [])

assemble-IsOutcome_example :
    IsOutcome tree (delta "a" ∷ delta "b" ∷ []) (assemble tree (delta "a" ∷ delta "b" ∷ []))
assemble-IsOutcome_example = assemble-IsOutcome tree (delta "a" ∷ delta "b" ∷ [])

missing_second : assemble tree (delta "a" ∷ leaf_text "b" ∷ []) ≡ Response.err (missing_choices 1)
unfolding assemble get
missing_second = refl

abbrev config : ConversationConfig
config = record { model = "m"; max_history = 3; max_tokens = 512 }

abbrev start : State
start = (init {Value = Tree} "ann" none config).state

abbrev calls : List RawToolCall
calls =
    new "c1" "draft_claim" "{\"body\":\"rain\",\"kind\":\"fact\"}"
    ∷ new "c2" "unknown" "{}"
    ∷ new "c3" "overview" "not json"
    ∷ []

execute_tool_calls_lem_example :
    let batch = execute_tool_calls tree start calls in
    (map (λ x. x.call_id) batch.outcomes ≡ "c1" ∷ "c2" ∷ "c3" ∷ [])
    × (batch.state ≡ record start { drafts = batch.state.drafts })
    × (batch.domain_mutated ≡ false → batch.state ≡ start)
    × IsClosed batch.state.drafts
unfolding init
execute_tool_calls_lem_example =
    execute_tool_calls_lem tree start calls (omega arith)
      (record { below = tt; distinct = tt; resolved = tt })

batch_drafts : length (execute_tool_calls tree start calls).state.drafts.drafts ≡ 1
unfolding execute_tool_calls get draft_claim init
batch_drafts = refl

abbrev no_value : ToolOutput → Option Tree
no_value output = none

reduce-IsAnswered_example :
    IsAnswered tree no_value [] start
      (user_prompt_received "hello")
      (reduce tree no_value [] start (conversation_event (user_prompt_received "hello")))
reduce-IsAnswered_example = reduce-IsAnswered tree no_value [] start (user_prompt_received "hello")

abbrev note : Entry
note = Types.comment none "ann" "note"

abbrev plan : Entry
plan = Types.claim "plan" "bob" "We move." Types.proposal none

abbrev events : List (Event Tree)
events =
    coordinator_event (entry_received 1 plan)
    ∷ conversation_event (user_prompt_received "hello")
    ∷ drafts_event (Drafts.draft_claim_requested "rain" Types.fact none)
    ∷ coordinator_event (entry_received 0 note)
    ∷ []

overview-run_events_example :
    overview (run_events tree no_value [] (init {Value = Tree} "ann" (some 1) config).state events)
    ≡ overview_from_entries (note ∷ plan ∷ [])
overview-run_events_example =
    overview-run_events tree no_value [] (note ∷ plan ∷ []) "ann" (some 1) config events
      (omega arith) (omega arith) (refl, (refl, tt)) (λ i h. ground arith)
