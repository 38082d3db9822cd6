-- ===== src/Engine/Queries.antt =====
-- The views of the engine of engine.rs: of the committed log, and of the log with the drafts.
use prosthetic_conscience.Prelude.{List, [], Option}
use prosthetic_conscience.Types.{ClaimId, Entry}
use prosthetic_conscience.Drafts.{ClaimRef, Result, ok}
use prosthetic_conscience.Render
use prosthetic_conscience.Render.{OverviewData, ClaimDetail}
use prosthetic_conscience.Preview
use prosthetic_conscience.Preview.{
  ImpactAnalysis, materialize_entries, overview_from_entries, materialize_drafts_for_preview,
}
use prosthetic_conscience.Engine.{ConsensusEngine, and_then}

unfoldable pub overview : ConsensusEngine → OverviewData
overview engine = overview_from_entries engine.log

unfoldable pub claim_detail : ConsensusEngine → ClaimId → Option ClaimDetail
unfolding materialize_entries
claim_detail engine claim_id =
    let (state, statuses) = materialize_entries engine.log in
    Render.claim_detail state statuses claim_id

-- The entries of all drafts, and the engine without drafts.
unfoldable pub submit_drafts : ConsensusEngine → Result (ConsensusEngine × List Entry)
submit_drafts engine =
    and_then (materialize_drafts_for_preview engine.drafts engine.draft_author)
      (λ entries. ok (record engine { drafts = [] }, entries))

unfoldable pub preview_overview : ConsensusEngine → Result OverviewData
preview_overview engine = Preview.preview_overview engine.log engine.drafts engine.draft_author

unfoldable pub preview_claim_detail : ConsensusEngine → ClaimRef → Result (Option ClaimDetail)
preview_claim_detail engine claim_ref =
    Preview.preview_claim_detail engine.log engine.drafts engine.draft_author claim_ref

unfoldable pub impact_analysis : ConsensusEngine → Result ImpactAnalysis
impact_analysis engine = Preview.impact_analysis engine.log engine.drafts engine.draft_author
