-- ===== src/Engine.antt =====
-- crates/consensus/src/engine.rs: the log and the drafts of the engine, and how drafts become the
-- entries of a submission. The calls of `next_claim_id` give `fresh 0`, `fresh 1` and so on.
pub mod Submission
pub mod Drafting
pub mod Queries
use prosthetic_conscience.Prelude.{
  ℕ, suc, Bool, String, List, [], ◌∷◌, ◌++◌, Option, none, some, not, ◌&&◌, ltb, nat_eq,
  if◌then◌else◌,
}
use prosthetic_conscience.Map.{Map, get, contains_key, update}
use prosthetic_conscience.Types.{ClaimId, Entry}
use prosthetic_conscience.Types
use prosthetic_conscience.Drafts.{
  ClaimRef, committed, draft, claim, relation, stance, resolve, comment, DraftEntry, EngineError,
  draft_not_found, draft_reference_must_target_claim, Result, ok, err, find_draft, is_claim,
  guarded,
}

pub record ConsensusEngine : Type 0 where
  pub log : List Entry
  pub drafts : List DraftEntry
  pub next_draft_id : ℕ
  pub draft_author : String

pub record ClaimIdMapping : Type 0 where
  pub draft_id : ℕ
  pub final_id : ClaimId

pub record SubmissionBundle : Type 0 where
  pub draft_ids : List ℕ
  pub entries : List Entry
  pub claim_id_map : List ClaimIdMapping

abbrev pub new : String → ConsensusEngine
new draft_author = record { log = []; drafts = []; next_draft_id = 0; draft_author = draft_author }

abbrev pub append : ConsensusEngine → Entry → ConsensusEngine
append engine entry = record engine { log = engine.log ++ entry ∷ [] }

unfoldable pub validate_claim_ref : ConsensusEngine → ClaimRef → Option EngineError
validate_claim_ref engine (committed claim_id) = none
validate_claim_ref engine (draft draft_id) = elim (find_draft engine.drafts draft_id) [
  | some d ↦ if is_claim d.entry then none else some (draft_reference_must_target_claim draft_id)
  | none ↦ some (draft_not_found draft_id)
]

-- `claim_id_map.get(draft_id).cloned().ok_or(..)`.
abbrev pub own_claim_id : Map ℕ ClaimId → ℕ → Result ClaimId
own_claim_id claim_id_map draft_id = elim (get claim_id_map draft_id) [
  | none ↦ err (draft_not_found draft_id)
  | some claim_id ↦ ok claim_id
]

unfoldable pub resolve_claim_ref_for_submission :
    ConsensusEngine → Map ℕ ClaimId → ClaimRef → Result ClaimId
unfolding validate_claim_ref
resolve_claim_ref_for_submission engine claim_id_map (committed claim_id) = ok claim_id
resolve_claim_ref_for_submission engine claim_id_map (draft draft_id) =
    guarded (validate_claim_ref engine (draft draft_id)) (own_claim_id claim_id_map draft_id)

-- The operator `?`, and `Option::map` with `transpose`.
abbrev pub and_then : {A B : Type 0} → Result A → (A → Result B) → Result B
and_then (ok a) f = f a
and_then (err error) f = err error

abbrev pub transpose : (ClaimRef → Result ClaimId) → Option ClaimRef → Result (Option ClaimId)
transpose resolve_ref none = ok none
transpose resolve_ref (some claim_ref) =
    and_then (resolve_ref claim_ref) (λ claim_id. ok (some claim_id))

unfoldable pub materialize_draft :
    ConsensusEngine → DraftEntry → (ClaimRef → Result ClaimId) → (ℕ → Result ClaimId) → Result Entry
materialize_draft engine d resolve_ref resolve_own_claim_id = elim d.entry [
  | claim body claim_kind parent ↦ and_then (resolve_own_claim_id d.id) (λ claim_id.
      and_then (transpose resolve_ref parent)
        (λ parent_id. ok (Types.claim claim_id engine.draft_author body claim_kind parent_id)))
  | relation source target kind ↦ and_then (resolve_ref source) (λ source_id.
      and_then (resolve_ref target)
        (λ target_id. ok (Types.relation source_id target_id kind engine.draft_author)))
  | stance target position ↦
      and_then (resolve_ref target)
        (λ target_id. ok (Types.stance target_id engine.draft_author position))
  | resolve claim_ref outcome ↦
      and_then (resolve_ref claim_ref)
        (λ claim_id. ok (Types.resolve claim_id engine.draft_author outcome))
  | comment claim_ref body ↦
      and_then (transpose resolve_ref claim_ref)
        (λ claim_id. ok (Types.comment claim_id engine.draft_author body))
]

unfoldable pub materialize_draft_for_submission :
    ConsensusEngine → Map ℕ ClaimId → DraftEntry → Result Entry
unfolding materialize_draft resolve_claim_ref_for_submission
materialize_draft_for_submission engine claim_id_map d =
    materialize_draft engine d (resolve_claim_ref_for_submission engine claim_id_map)
      (own_claim_id claim_id_map)

-- The first loop of `submission_bundle`.
unfoldable pub assign_claim_ids :
    (ℕ → ClaimId) → ℕ → List DraftEntry → Map ℕ ClaimId → Map ℕ ClaimId
assign_claim_ids fresh n [] claim_id_map = claim_id_map
assign_claim_ids fresh n (d ∷ drafts) claim_id_map =
    let is_new = is_claim d.entry && not (contains_key claim_id_map d.id) in
    assign_claim_ids fresh (if is_new then suc n else n) drafts
      (if is_new then update claim_id_map d.id (fresh n) else claim_id_map)

-- `map(..).collect::<Result<_, _>>()`.
abbrev pub collect : (DraftEntry → Result Entry) → List DraftEntry → Result (List Entry)
collect f [] = ok []
collect f (d ∷ drafts) =
    and_then (f d) (λ entry. and_then (collect f drafts) (λ entries. ok (entry ∷ entries)))

abbrev pub ids : List DraftEntry → List ℕ
ids [] = []
ids (d ∷ drafts) = d.id ∷ ids drafts

-- The mappings, sorted by their drafts.
abbrev pub insert_mapping : ClaimIdMapping → List ClaimIdMapping → List ClaimIdMapping
insert_mapping x [] = x ∷ []
insert_mapping x (y ∷ ys) =
    let rest = insert_mapping x ys in if ltb y.draft_id x.draft_id then y ∷ rest else x ∷ y ∷ ys

abbrev pub sorted_mappings : Map ℕ ClaimId → List ClaimIdMapping
sorted_mappings [] = []
sorted_mappings ((draft_id, final_id) ∷ claim_id_map) =
    insert_mapping (record { draft_id = draft_id; final_id = final_id })
      (sorted_mappings claim_id_map)

unfoldable pub submission_bundle : ConsensusEngine → (ℕ → ClaimId) → Result SubmissionBundle
unfolding assign_claim_ids materialize_draft_for_submission
submission_bundle engine fresh =
    let claim_id_map = assign_claim_ids fresh 0 engine.drafts [] in
    and_then (collect (materialize_draft_for_submission engine claim_id_map) engine.drafts)
      (λ entries. ok (record {
        draft_ids = ids engine.drafts;
        entries = entries;
        claim_id_map = sorted_mappings claim_id_map;
      }))
