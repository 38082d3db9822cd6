-- ===== src/Examples/TurnTests.antt =====
-- Tests of the turns of the model over the engine, over the JSON values of `JsonTree`.
use prosthetic_conscience.Prelude.{◌≡◌, refl, Bool, true, false, String, [], ◌∷◌, none, length}
use prosthetic_conscience.Map.{get}
use prosthetic_conscience.Map.Ordered.{update}
use prosthetic_conscience.Drafts.{comment}
use prosthetic_conscience.Json.{Parsed, parsed}
use prosthetic_conscience.Engine.{ConsensusEngine}
use prosthetic_conscience.Response.{CompletedAssistantMessage, new, assemble}
use prosthetic_conscience.ToolDispatch.{Shown, dispatch}
use prosthetic_conscience.Turn.{Outcome, step, process_llm_response}
use prosthetic_conscience.Turn.Trace.{needs_request, TurnConfig}
use prosthetic_conscience.Turn.Rounds.{IsProcessed, process_llm_response-IsProcessed}
use prosthetic_conscience.Examples.JsonTree.{
  Tree, leaf_text, leaf_number, node_array, to_branches, tree, tree_object,
}

abbrev config : TurnConfig
config = record { round = 2; max_rounds = 8; max_history = 10; model = "m"; participant = "ann" }

abbrev shown : Shown → Parsed Tree
shown value = parsed (leaf_text "shown")

abbrev call : String → String → Tree
call tool arguments = tree_object (
    ("index", leaf_number 0)
    ∷ ("id", leaf_text "c1")
    ∷ ("type", leaf_text "function")
    ∷ ("function", tree_object (("name", leaf_text tool) ∷ ("arguments", leaf_text arguments) ∷ []))
    ∷ [])

abbrev chunk : String → String → Tree
chunk tool arguments = tree_object (
    (
      "choices",
      node_array (
          to_branches (
            tree_object (
              (
                "delta",
                tree_object
                    (("tool_calls", node_array (to_branches (call tool arguments ∷ []))) ∷ []),
              )
              ∷ [])
            ∷ [])),
    )
    ∷ [])

abbrev message : String → String → CompletedAssistantMessage
message tool arguments = record {
  content = none;
  tool_calls = new "c1" tool arguments ∷ [];
  finish_reason = none;
}

abbrev engine : ConsensusEngine
engine = record {
  log = [];
  drafts = record { id = 1; entry = comment none "a thought" } ∷ [];
  next_draft_id = 2;
  draft_author = "ann";
}

-- The round ends in another request.
abbrev requests : Outcome Tree → Bool
requests (step (needs_request payload trace)) = true
requests _ = false

asked :
    requests
      (process_llm_response tree shown [] config (chunk "overview" "{}" ∷ []) engine []).outcome
    ≡ true
unfolding process_llm_response get update dispatch assemble
asked = refl

process_llm_response-IsProcessed_example :
    IsProcessed tree shown config engine []
      (assemble tree (chunk "overview" "{}" ∷ []))
      (process_llm_response tree shown [] config (chunk "overview" "{}" ∷ []) engine [])
process_llm_response-IsProcessed_example =
    process_llm_response-IsProcessed tree shown [] config (chunk "overview" "{}" ∷ []) engine []

-- A tool that is not advertised is executed if it is named: the drafts are gone, and the turn goes on.
cleared :
    let p = process_llm_response tree shown [] config (chunk "clear_drafts" "{}" ∷ []) engine [] in
    (p.engine.drafts ≡ []) × (requests p.outcome ≡ true)
unfolding process_llm_response get update dispatch assemble
cleared = (refl, refl)

-- A draft ends the turn.
drafted :
    let p =
      process_llm_response tree shown [] config
        (chunk "draft_claim" "{\"body\":\"rain\",\"kind\":\"fact\"}" ∷ [])
        engine
        [] in
    (length p.engine.drafts ≡ 2) × (requests p.outcome ≡ false)
unfolding process_llm_response get update dispatch assemble
drafted = (refl, refl)
