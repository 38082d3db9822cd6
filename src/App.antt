-- ===== src/App.antt =====
-- crates/consensus/src/app.rs: the application, which hands events to the conversation, the drafts
-- and the coordinator, and executes the tools that the model calls. The tool definitions, which are
-- prose, are a parameter, and so is `to_value`, which `serde` derives for the outputs of tools.
pub mod Prompt
pub mod Reducer
pub mod Frames
pub mod Tools
pub mod Events
pub mod Composition
use prosthetic_conscience.Prelude.{
  ℕ, Bool, true, false, ◌||◌, String, List, [], ◌∷◌, ◌++◌, Option, none, some, if◌then◌else◌, map,
  push_str, decimal,
}
use prosthetic_conscience.Json.{Json, Parsed, parsed, failed}
use prosthetic_conscience.Types.{ClaimId, Entry}
use prosthetic_conscience.Coordinator
use prosthetic_conscience.Coordinator.{committed_prefix, sync_to_latest}
use prosthetic_conscience.Drafts
use prosthetic_conscience.Drafts.{ClaimRef, DraftEntry, EngineError, guarded}
use prosthetic_conscience.Render
use prosthetic_conscience.Render.{OverviewData, ClaimDetail}
use prosthetic_conscience.Preview
use prosthetic_conscience.Preview.{ImpactAnalysis, materialize_entries, overview_from_entries}
use prosthetic_conscience.Response.{RawToolCall}
use prosthetic_conscience.AppTools
use prosthetic_conscience.AppTools.{AppTool, ToolDecodeError, decode_tool_call}
use prosthetic_conscience.Conversation
use prosthetic_conscience.Conversation.{
  history_to_json, truncate_history, with_tool_results, RequestIntent, chat_completion,
  execute_tool_calls as call_tools, ToolResult,
}

abbrev pub coordinator_page_limit : ℕ
coordinator_page_limit = 1000

pub record ConversationConfig : Type 0 where
  pub model : String
  pub max_history : ℕ
  pub max_tokens : ℕ

pub record State : Type 0 where
  pub participant : String
  pub conversation_config : ConversationConfig
  pub conversation : Conversation.State
  pub coordinator : Coordinator.State Entry
  pub drafts : Drafts.State

pub data Event (Value : Type 0) : Type 0 where
  conversation_event : Conversation.Event Value → Event Value
  drafts_event : Drafts.Event → Event Value
  coordinator_event : Coordinator.Event Entry → Event Value

pub data Effect (Value : Type 0) : Type 0 where
  conversation_effect : Conversation.Effect → Effect Value
  coordinator_effect : Coordinator.Effect → Effect Value
  request_chat_completion : (payload : Value) → Effect Value

pub record Transition (Value : Type 0) : Type 0 where
  pub state : State
  pub effects : List (Effect Value)

pub record View : Type 0 where
  pub overview : OverviewData
  pub drafts : List DraftEntry
  pub notice : Option Drafts.Notice

pub data ToolOutput : Type 0 where
  overview_output preview_overview_output : OverviewData → ToolOutput
  claim_detail_output preview_claim_detail_output : Option ClaimDetail → ToolOutput
  show_drafts_output : List DraftEntry → ToolOutput
  impact_analysis_output : ImpactAnalysis → ToolOutput
  draft_claim_output draft_relation_output draft_stance_output : (draft_id : ℕ) → ToolOutput
  draft_resolve_output draft_comment_output : (draft_id : ℕ) → ToolOutput
  remove_draft_output : (removed : ℕ) → ToolOutput

pub data ToolCallError : Type 0 where
  decode : ToolDecodeError → ToolCallError
  execution : EngineError → ToolCallError

pub data ToolCallOutcome : Type 0 where
  success : ToolOutput → ToolCallOutcome
  failure : ToolCallError → ToolCallOutcome

pub record ToolExecution : Type 0 where
  pub call_id : String
  pub outcome : ToolCallOutcome

pub record ToolBatchExecution : Type 0 where
  pub state : State
  pub outcomes : List ToolExecution
  pub domain_mutated : Bool

unfoldable pub init : {Value : Type 0} → String → Option ℕ → ConversationConfig → Transition Value
init participant latest_entry_index conversation_config =
    let coordinator =
      sync_to_latest {T = Entry} (Coordinator.empty coordinator_page_limit) latest_entry_index in
    record {
      state = record {
        participant = participant;
        conversation_config = conversation_config;
        conversation = Conversation.init;
        coordinator = coordinator.state;
        drafts = Drafts.init;
      };
      effects = map coordinator_effect coordinator.effects;
    }

unfoldable pub overview : State → OverviewData
overview state = overview_from_entries (committed_prefix state.coordinator)

abbrev pub show_drafts : State → List DraftEntry
show_drafts state = state.drafts.drafts

unfoldable pub claim_detail : State → ClaimId → Option ClaimDetail
unfolding materialize_entries
claim_detail state claim_id =
    let (materialized, statuses) = materialize_entries (committed_prefix state.coordinator) in
    Render.claim_detail materialized statuses claim_id

unfoldable pub preview_overview : State → Drafts.Result OverviewData
preview_overview state =
    Preview.preview_overview (committed_prefix state.coordinator) (show_drafts state)
      state.participant

unfoldable pub preview_claim_detail : State → ClaimRef → Drafts.Result (Option ClaimDetail)
preview_claim_detail state claim_ref =
    Preview.preview_claim_detail (committed_prefix state.coordinator) (show_drafts state)
      state.participant claim_ref

unfoldable pub impact_analysis : State → Drafts.Result ImpactAnalysis
impact_analysis state =
    Preview.impact_analysis (committed_prefix state.coordinator) (show_drafts state)
      state.participant

unfoldable pub view : State → View
unfolding overview
view state = record {
  overview = overview state;
  drafts = show_drafts state;
  notice = state.drafts.last_notice;
}

-- The operator `?` on a view of the state, which stays as it is.
abbrev pub viewed :
    {A : Type 0}
    → State
    → (A → ToolOutput)
    → Drafts.Result A
    → Drafts.Result (State × ToolOutput × Bool)
viewed state output (Drafts.ok a) = Drafts.ok (state, output a, false)
viewed state output (Drafts.err error) = Drafts.err error

-- The operator `?` on an operation on drafts, whose state takes the place of the old one.
abbrev pub drafted :
    State
    → (ℕ → ToolOutput)
    → Drafts.Result (Drafts.State × ℕ)
    → Drafts.Result (State × ToolOutput × Bool)
drafted state output (Drafts.ok (drafts, draft_id)) =
    Drafts.ok (record state { drafts = drafts }, output draft_id, true)
drafted state output (Drafts.err error) = Drafts.err error

abbrev pub removed :
    State → ℕ → Drafts.Result Drafts.State → Drafts.Result (State × ToolOutput × Bool)
removed state draft_id (Drafts.ok drafts) =
    Drafts.ok (record state { drafts = drafts }, remove_draft_output draft_id, true)
removed state draft_id (Drafts.err error) = Drafts.err error

unfoldable pub execute_tool : State → AppTool → Drafts.Result (State × ToolOutput × Bool)
unfolding overview claim_detail preview_overview preview_claim_detail impact_analysis
execute_tool state AppTools.overview = Drafts.ok (state, overview_output (overview state), false)
execute_tool state (AppTools.claim_detail claim_id) =
    Drafts.ok (state, claim_detail_output (claim_detail state claim_id), false)
execute_tool state AppTools.show_drafts =
    Drafts.ok (state, show_drafts_output (show_drafts state), false)
execute_tool state AppTools.preview_overview =
    viewed state preview_overview_output (preview_overview state)
execute_tool state (AppTools.preview_claim_detail claim_ref) =
    viewed state preview_claim_detail_output (preview_claim_detail state claim_ref)
execute_tool state AppTools.impact_analysis =
    viewed state impact_analysis_output (impact_analysis state)
execute_tool state (AppTools.draft_claim body kind parent) =
    drafted state draft_claim_output (Drafts.draft_claim state.drafts body kind parent)
execute_tool state (AppTools.draft_relation source target kind) =
    drafted state draft_relation_output (Drafts.draft_relation state.drafts source target kind)
execute_tool state (AppTools.draft_stance target position) =
    drafted state draft_stance_output (Drafts.draft_stance state.drafts target position)
execute_tool state (AppTools.draft_resolve claim_ref outcome) =
    drafted state draft_resolve_output (Drafts.draft_resolve state.drafts claim_ref outcome)
execute_tool state (AppTools.draft_comment body claim_ref) =
    drafted state draft_comment_output (Drafts.draft_comment state.drafts body claim_ref)
execute_tool state (AppTools.remove_draft draft_id) =
    removed state draft_id (Drafts.remove_draft state.drafts draft_id)

-- The arms for one call: the next state, the outcome, and whether the domain has changed.
abbrev pub executed :
    State → Drafts.Result (State × ToolOutput × Bool) → State × ToolCallOutcome × Bool
executed state (Drafts.ok (next, output, mutated)) = (next, success output, mutated)
executed state (Drafts.err error) = (state, failure (execution error), false)

unfoldable pub run_decoded : State → AppTools.Result AppTool → State × ToolCallOutcome × Bool
unfolding execute_tool
run_decoded state (AppTools.ok tool) = executed state (execute_tool state tool)
run_decoded state (AppTools.err error) = (state, failure (decode error), false)

module _ {Value : Type 0} (json : Json Value) where
  -- The loop over the calls.
  unfoldable pub execute_tool_calls : State → List RawToolCall → ToolBatchExecution
  unfolding run_decoded decode_tool_call
  execute_tool_calls state [] = record { state = state; outcomes = []; domain_mutated = false }
  execute_tool_calls state (call ∷ calls) =
      let (next, outcome, mutated) = run_decoded state (decode_tool_call json call) in
      let rest = execute_tool_calls next calls in
      record {
        state = rest.state;
        outcomes = record { call_id = call.id; outcome = outcome } ∷ rest.outcomes;
        domain_mutated = mutated || rest.domain_mutated;
      }
