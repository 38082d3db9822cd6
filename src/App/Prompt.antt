-- ===== src/App/Prompt.antt =====
-- What crates/consensus/src/app.rs sends to the model besides the conversation: the system prompt,
-- and the tool definitions, with their two forms of crates/consensus/src/app_tools.rs and
-- crates/consensus/src/llm_turn.rs.
use prosthetic_conscience.Prelude.{String, List, [], ◌∷◌, some, map, concat, join, push_str}
use prosthetic_conscience.Json.{Json}
use prosthetic_conscience.Drafts
use prosthetic_conscience.Drafts.{EngineError}
use prosthetic_conscience.Preview.{ImpactAnalysis}
use prosthetic_conscience.Format.{format_overview, format_drafts, format_impact_analysis}
use prosthetic_conscience.Format.Errors.{engine_error_text}
use prosthetic_conscience.SystemPrompt
use prosthetic_conscience.App.{State, overview, show_drafts, impact_analysis}

pub record ToolDef (Value : Type 0) : Type 0 where
  pub name : String
  pub description : String
  pub parameters : Value

module _ {Value : Type 0} where
  abbrev pub format_tool_definitions : List (ToolDef Value) → String
  format_tool_definitions defs =
      join "\n" (map (λ tool. concat ("- " ∷ tool.name ∷ ": " ∷ tool.description ∷ [])) defs)

  abbrev pub tool_definitions_json : Json Value → List (ToolDef Value) → List Value
  tool_definitions_json json defs =
      map
        (λ tool. json.object (
          ("type", json.text "function")
          ∷ (
            "function",
            json.object (
                ("name", json.text tool.name)
                ∷ ("description", json.text tool.description)
                ∷ ("parameters", tool.parameters)
                ∷ []),
          )
          ∷ []))
        defs

-- The text of the impact, or of the error.
abbrev pub impact_text : Drafts.Result ImpactAnalysis → String
impact_text (Drafts.ok impact) = format_impact_analysis impact
impact_text (Drafts.err error) = push_str "Impact analysis unavailable: " (engine_error_text error)

unfoldable pub build_system_prompt : {Value : Type 0} → List (ToolDef Value) → State → String
build_system_prompt tool_definitions state = SystemPrompt.build_system_prompt (record {
  participant = state.participant;
  overview = format_overview (overview state);
  drafts = format_drafts (show_drafts state);
  impact = some (impact_text (impact_analysis state));
  tools = format_tool_definitions tool_definitions;
})
