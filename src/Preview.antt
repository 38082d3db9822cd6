-- ===== src/Preview.antt =====
-- crates/consensus/src/preview.rs: the committed entries together with the drafts, as if these were
-- committed; and the pipeline of engine.rs from a log to statuses.
pub mod Submitted
use prosthetic_conscience.Prelude.{
  ℕ, Bool, true, false, not, ◌&&◌, ◌||◌, String, List, [], ◌∷◌, ◌++◌, Option, none, some, ◌==◌,
  string_eq, nat_beq, ltb, if◌then◌else◌, sort_by, text_ltb, decimal, push_str, is_some,
}
use prosthetic_conscience.Map.{Map, get, contains_key, keys}
use prosthetic_conscience.Types.{ClaimId, ClaimKind, Entry, MaterializedState}
use prosthetic_conscience.Types
use prosthetic_conscience.Solver.{grounded_labelling}
use prosthetic_conscience.Reducer.{replay, to_graph}
use prosthetic_conscience.Status.{
  EpistemicStatus, established, unexamined, contested, defeated, unresolved, compute_all,
}
use prosthetic_conscience.Render
use prosthetic_conscience.Render.{OverviewData, ClaimDetail}
use prosthetic_conscience.Drafts.{
  ClaimRef, committed, draft, claim, relation, stance, resolve, comment, DraftEntry, EngineError,
  draft_not_found, draft_reference_must_target_claim, Result, ok, err, find_draft, is_claim,
  guarded,
}
use prosthetic_conscience.Engine.{and_then, transpose, collect}

-- `materialize_entries`, and `materialize_owned`, which it calls.
unfoldable pub materialize_entries : List Entry → MaterializedState × Map ClaimId EpistemicStatus
unfolding to_graph
materialize_entries entries =
    let state = replay entries in
    let (graph, index) = to_graph state in
    let labels = grounded_labelling graph in (state, compute_all state labels index)

unfoldable pub overview_from_entries : List Entry → OverviewData
unfolding materialize_entries
overview_from_entries entries =
    let (state, statuses) = materialize_entries entries in Render.overview state statuses

pub record ImpactNewClaim : Type 0 where
  pub draft_id : ℕ
  pub body : String
  pub author : String
  pub kind : ClaimKind
  pub status : Option EpistemicStatus

pub record ImpactStatusChange : Type 0 where
  pub claim_id : ClaimId
  pub body : String
  pub before : Option EpistemicStatus
  pub after : Option EpistemicStatus

pub record ImpactAnalysis : Type 0 where
  pub new_claims : List ImpactNewClaim
  pub status_changes : List ImpactStatusChange

unfoldable pub draft_claim_preview_id : ℕ → ClaimId
draft_claim_preview_id draft_id = push_str "draft-" (decimal draft_id)

unfoldable pub validate_claim_ref : List DraftEntry → ClaimRef → Option EngineError
validate_claim_ref drafts (committed claim_id) = none
validate_claim_ref drafts (draft draft_id) = elim (find_draft drafts draft_id) [
  | some d ↦ if is_claim d.entry then none else some (draft_reference_must_target_claim draft_id)
  | none ↦ some (draft_not_found draft_id)
]

unfoldable pub resolve_claim_ref_for_preview : List DraftEntry → ClaimRef → Result ClaimId
unfolding validate_claim_ref draft_claim_preview_id
resolve_claim_ref_for_preview drafts (committed claim_id) = ok claim_id
resolve_claim_ref_for_preview drafts (draft draft_id) =
    guarded (validate_claim_ref drafts (draft draft_id)) (ok (draft_claim_preview_id draft_id))

unfoldable pub materialize_draft_for_preview : List DraftEntry → String → DraftEntry → Result Entry
unfolding resolve_claim_ref_for_preview
materialize_draft_for_preview drafts author d =
    let resolve_ref = resolve_claim_ref_for_preview drafts in
    elim d.entry [
      | claim body claim_kind parent ↦ and_then (transpose resolve_ref parent) (λ parent_id.
          ok (Types.claim (draft_claim_preview_id d.id) author body claim_kind parent_id))
      | relation source target kind ↦ and_then (resolve_ref source) (λ source_id.
          and_then (resolve_ref target)
            (λ target_id. ok (Types.relation source_id target_id kind author)))
      | stance target position ↦
          and_then (resolve_ref target) (λ target_id. ok (Types.stance target_id author position))
      | resolve claim_ref outcome ↦
          and_then (resolve_ref claim_ref) (λ claim_id. ok (Types.resolve claim_id author outcome))
      | comment claim_ref body ↦
          and_then (transpose resolve_ref claim_ref)
            (λ claim_id. ok (Types.comment claim_id author body))
    ]

unfoldable pub materialize_drafts_for_preview : List DraftEntry → String → Result (List Entry)
unfolding materialize_draft_for_preview
materialize_drafts_for_preview drafts author =
    collect (materialize_draft_for_preview drafts author) drafts

unfoldable pub merged_entries : List Entry → List DraftEntry → String → Result (List Entry)
unfolding materialize_drafts_for_preview
merged_entries committed_entries drafts author =
    and_then (materialize_drafts_for_preview drafts author)
      (λ entries. ok (committed_entries ++ entries))

unfoldable pub preview_overview : List Entry → List DraftEntry → String → Result OverviewData
unfolding merged_entries overview_from_entries
preview_overview committed_entries drafts author =
    and_then (merged_entries committed_entries drafts author)
      (λ merged. ok (overview_from_entries merged))

unfoldable pub preview_claim_detail :
    List Entry → List DraftEntry → String → ClaimRef → Result (Option ClaimDetail)
unfolding merged_entries materialize_entries
preview_claim_detail committed_entries drafts author claim_ref =
    and_then (resolve_claim_ref_for_preview drafts claim_ref) (λ claim_id.
      and_then (merged_entries committed_entries drafts author) (λ merged.
        let (state, statuses) = materialize_entries merged in
        ok (Render.claim_detail state statuses claim_id)))

-- The loop over the drafts that are claims.
unfoldable pub new_claims :
    String → Map ClaimId EpistemicStatus → List DraftEntry → List ImpactNewClaim
new_claims author statuses [] = []
new_claims author statuses (d ∷ drafts) =
    let rest = new_claims author statuses drafts in
    elim d.entry [
      | claim body claim_kind parent ↦
          record {
            draft_id = d.id;
            body = body;
            author = author;
            kind = claim_kind;
            status = get statuses (draft_claim_preview_id d.id);
          }
          ∷ rest
      | _ ↦ rest
    ]

-- `Vec::dedup_by` on equal identifiers: of equal neighbours one stays.
unfoldable pub dedup : List ClaimId → List ClaimId
dedup [] = []
dedup (x ∷ []) = x ∷ []
dedup (x ∷ y ∷ ys) = let rest = dedup (y ∷ ys) in if x == y then rest else x ∷ rest

abbrev pub status_code : EpistemicStatus → ℕ
status_code established = 0
status_code unexamined = 1
status_code contested = 2
status_code defeated = 3
status_code unresolved = 4

-- `before == after`.
abbrev pub same_status : Option EpistemicStatus → Option EpistemicStatus → Bool
same_status none none = true
same_status (some a) (some b) = nat_beq (status_code a) (status_code b)
same_status _ _ = false

abbrev pub body_of : MaterializedState → MaterializedState → ClaimId → String
body_of preview_state committed_state claim_id = elim (get preview_state.claims claim_id) [
  | some c ↦ c.body
  | none ↦ elim (get committed_state.claims claim_id) [ some c ↦ c.body | none ↦ "" ]
]

-- The loop over the identifiers of the claims.
unfoldable pub status_changes :
    MaterializedState × Map ClaimId EpistemicStatus
    → MaterializedState × Map ClaimId EpistemicStatus
    → List ClaimId
    → List ImpactStatusChange
status_changes p q [] = []
status_changes p q (claim_id ∷ claim_ids) =
    let rest = status_changes p q claim_ids in
    let before = get p.1 claim_id in
    let after = get q.1 claim_id in
    if not (contains_key p.0.claims claim_id) || same_status before after
    then rest
    else record {
      claim_id = claim_id;
      body = body_of q.0 p.0 claim_id;
      before = before;
      after = after;
    }
      ∷ rest

-- The arguments are the state and the statuses of the committed entries, and of the preview.
unfoldable pub build_impact_analysis :
    List DraftEntry
    → String
    → MaterializedState × Map ClaimId EpistemicStatus
    → MaterializedState × Map ClaimId EpistemicStatus
    → ImpactAnalysis
unfolding new_claims status_changes dedup
build_impact_analysis drafts author p q =
    let claim_ids = dedup (sort_by text_ltb (keys p.0.claims ++ keys q.0.claims)) in
    record {
      new_claims = sort_by (λ a b. ltb a.draft_id b.draft_id) (new_claims author q.1 drafts);
      status_changes =
          sort_by (λ a b. text_ltb a.claim_id b.claim_id) (status_changes p q claim_ids);
    }

unfoldable pub impact_analysis : List Entry → List DraftEntry → String → Result ImpactAnalysis
unfolding merged_entries materialize_entries build_impact_analysis
impact_analysis committed_entries drafts author =
    and_then (merged_entries committed_entries drafts author) (λ merged. ok (
      build_impact_analysis drafts author (materialize_entries committed_entries)
        (materialize_entries merged)))
