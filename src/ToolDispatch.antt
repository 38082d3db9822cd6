-- ===== src/ToolDispatch.antt =====
-- crates/consensus/src/tools.rs: the tools over the engine. `to_value` stands for the serialization
-- that `serde` derives for what a tool shows.
pub mod Arguments
use prosthetic_conscience.Prelude.{
  ℕ, Bool, String, List, [], ◌∷◌, Option, none, some, ◌==◌, string_eq, if◌then◌else◌, length,
}
use prosthetic_conscience.Json.{Json, Parsed, parsed, failed}
use prosthetic_conscience.Types.{Entry}
use prosthetic_conscience.Drafts
use prosthetic_conscience.Drafts.{DraftEntry}
use prosthetic_conscience.Render.{OverviewData, ClaimDetail}
use prosthetic_conscience.Preview.{ImpactAnalysis}
use prosthetic_conscience.Engine.{ConsensusEngine}
use prosthetic_conscience.Engine.Drafting
use prosthetic_conscience.Engine.Queries
use prosthetic_conscience.ToolDispatch.Arguments.{
  ToolError, unknown_tool, serialize, engine_error, Result, ok, err, ◌>>=◌, require_str,
  require_u64, require_claim_ref, optional_claim_ref, require_claim_kind, require_relation_kind,
  require_position, require_outcome,
}

-- What is serialized.
pub data Shown : Type 0 where
  shown_overview : OverviewData → Shown
  shown_detail : Option ClaimDetail → Shown
  shown_drafts : List DraftEntry → Shown
  shown_entries : List Entry → Shown
  shown_impact : ImpactAnalysis → Shown

-- The engine is changed in place: it stands beside the result, errors included.
abbrev pub Step : Type 0 → Type 0
Step Value = ConsensusEngine × Result Value

-- The operator `?` on an argument, and on an operation of the engine.
abbrev pub with_args :
    {A Value : Type 0} → ConsensusEngine → Result A → (A → Step Value) → Step Value
with_args engine (ok a) f = f a
with_args engine (err error) f = (engine, err error)

abbrev pub with_engine :
    {A Value : Type 0} → ConsensusEngine → Drafts.Result A → (A → Step Value) → Step Value
with_engine engine (Drafts.ok a) f = f a
with_engine engine (Drafts.err error) f = (engine, err (engine_error error))

module _ {Value : Type 0} (json : Json Value) (to_value : Shown → Parsed Value) where
  abbrev converted : Parsed Value → Result Value
  converted (parsed value) = ok value
  converted (failed error) = err (serialize error)

  abbrev pub to_json : Shown → Result Value
  to_json shown = converted (to_value shown)

  abbrev drafted : ConsensusEngine → Drafts.Result (ConsensusEngine × ℕ) → Step Value
  drafted engine r =
      with_engine engine r
        (λ (next, draft_id). (next, ok (json.object (("draft_id", json.number draft_id) ∷ []))))

  unfoldable pub run_claim_detail : ConsensusEngine → Value → Step Value
  unfolding require_str Queries.claim_detail
  run_claim_detail engine args =
      with_args engine (require_str json args "claim_id")
        (λ claim_id. (engine, to_json (shown_detail (Queries.claim_detail engine claim_id))))

  unfoldable pub run_draft_claim : ConsensusEngine → Value → Step Value
  unfolding require_str require_claim_kind optional_claim_ref Drafting.draft_claim
  run_draft_claim engine args = with_args engine (require_str json args "body") (λ body.
      with_args engine (require_claim_kind json args "kind") (λ kind.
        with_args engine (optional_claim_ref json args "parent")
          (λ parent. drafted engine (Drafting.draft_claim engine body kind parent))))

  unfoldable pub run_draft_relation : ConsensusEngine → Value → Step Value
  unfolding require_claim_ref require_relation_kind Drafting.draft_relation
  run_draft_relation engine args =
      with_args engine (require_claim_ref json args "source") (λ source.
        with_args engine (require_claim_ref json args "target") (λ target.
          with_args engine (require_relation_kind json args "kind")
            (λ kind. drafted engine (Drafting.draft_relation engine source target kind))))

  unfoldable pub run_draft_stance : ConsensusEngine → Value → Step Value
  unfolding require_claim_ref require_position Drafting.draft_stance
  run_draft_stance engine args = with_args engine (require_claim_ref json args "target") (λ target.
      with_args engine (require_position json args "position")
        (λ position. drafted engine (Drafting.draft_stance engine target position)))

  unfoldable pub run_draft_resolve : ConsensusEngine → Value → Step Value
  unfolding require_claim_ref require_outcome Drafting.draft_resolve
  run_draft_resolve engine args =
      with_args engine (require_claim_ref json args "claim") (λ claim_ref.
        with_args engine (require_outcome json args "outcome")
          (λ outcome. drafted engine (Drafting.draft_resolve engine claim_ref outcome)))

  unfoldable pub run_draft_comment : ConsensusEngine → Value → Step Value
  unfolding require_str optional_claim_ref Drafting.draft_comment
  run_draft_comment engine args = with_args engine (require_str json args "body") (λ body.
      with_args engine (optional_claim_ref json args "claim")
        (λ claim_ref. drafted engine (Drafting.draft_comment engine body claim_ref)))

  unfoldable pub run_remove_draft : ConsensusEngine → Value → Step Value
  unfolding require_u64 Drafting.remove_draft
  run_remove_draft engine args = with_args engine (require_u64 json args "draft_id") (λ id.
      with_engine engine (Drafting.remove_draft engine id)
        (λ next. (next, ok (json.object (("removed", json.number id) ∷ [])))))

  -- The drafts are gone even if their entries cannot be serialized.
  unfoldable pub run_submit_drafts : ConsensusEngine → Step Value
  unfolding Queries.submit_drafts
  run_submit_drafts engine = with_engine engine (Queries.submit_drafts engine) (λ (next, entries). (
    next,
    to_json (shown_entries entries) >>= λ value.
        ok (json.object (("submitted", json.number (length entries)) ∷ ("entries", value) ∷ [])),
  ))

  unfoldable pub run_clear_drafts : ConsensusEngine → Step Value
  run_clear_drafts engine = (
    Drafting.clear_drafts engine,
    ok (json.object (("cleared", json.number (length engine.drafts)) ∷ [])),
  )

  unfoldable pub run_preview_overview : ConsensusEngine → Step Value
  unfolding Queries.preview_overview
  run_preview_overview engine =
      with_engine engine (Queries.preview_overview engine)
        (λ overview. (engine, to_json (shown_overview overview)))

  unfoldable pub run_preview_claim_detail : ConsensusEngine → Value → Step Value
  unfolding require_claim_ref Queries.preview_claim_detail
  run_preview_claim_detail engine args =
      with_args engine (require_claim_ref json args "claim") (λ claim_ref.
        with_engine engine (Queries.preview_claim_detail engine claim_ref)
          (λ detail. (engine, to_json (shown_detail detail))))

  unfoldable pub run_impact_analysis : ConsensusEngine → Step Value
  unfolding Queries.impact_analysis
  run_impact_analysis engine =
      with_engine engine (Queries.impact_analysis engine)
        (λ impact. (engine, to_json (shown_impact impact)))

  unfoldable pub dispatch : ConsensusEngine → String → Value → Step Value
  unfolding Queries.overview run_claim_detail run_draft_claim run_draft_relation run_draft_stance
      run_draft_resolve run_draft_comment run_remove_draft run_submit_drafts run_clear_drafts
      run_preview_overview run_preview_claim_detail run_impact_analysis
  dispatch engine tool args =
      if tool == "overview"
      then (engine, to_json (shown_overview (Queries.overview engine)))
      else if tool == "claim_detail"
      then run_claim_detail engine args
      else if tool == "draft_claim"
      then run_draft_claim engine args
      else if tool == "draft_relation"
      then run_draft_relation engine args
      else if tool == "draft_stance"
      then run_draft_stance engine args
      else if tool == "draft_resolve"
      then run_draft_resolve engine args
      else if tool == "draft_comment"
      then run_draft_comment engine args
      else if tool == "show_drafts"
      then (engine, to_json (shown_drafts engine.drafts))
      else if tool == "remove_draft"
      then run_remove_draft engine args
      else if tool == "submit_drafts"
      then run_submit_drafts engine
      else if tool == "clear_drafts"
      then run_clear_drafts engine
      else if tool == "preview_overview"
      then run_preview_overview engine
      else if tool == "preview_claim_detail"
      then run_preview_claim_detail engine args
      else if tool == "impact_analysis"
      then run_impact_analysis engine
      else (engine, err (unknown_tool tool))
