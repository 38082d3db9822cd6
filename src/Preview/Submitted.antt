-- ===== src/Preview/Submitted.antt =====
-- Previews of preview.rs against the submissions of engine.rs.
use prosthetic_conscience.Prelude.{
  ℕ, ◌≡◌, refl, ap, true, List, [], ◌∷◌, Option, none, some, arith, inl, inr, nat_eq, Bool-cases,
  Option-cases,
}
use prosthetic_conscience.Map.{Map, get}
use prosthetic_conscience.Types.{ClaimId}
use prosthetic_conscience.Drafts.{
  ClaimRef, committed, draft, DraftContent, claim, relation, stance, resolve, comment, DraftEntry,
  ok, find_draft, is_claim,
}
use prosthetic_conscience.Drafts.References.{targets_claim}
use prosthetic_conscience.Engine.{
  ConsensusEngine, validate_claim_ref, own_claim_id, resolve_claim_ref_for_submission, and_then,
  transpose, materialize_draft, materialize_draft_for_submission, assign_claim_ids, collect, ids,
  sorted_mappings, submission_bundle,
}
use prosthetic_conscience.Engine.Submission.{drafts_claim, targets_claim-drafts_claim}
use prosthetic_conscience.Preview
use prosthetic_conscience.Preview.{
  draft_claim_preview_id, resolve_claim_ref_for_preview, materialize_draft_for_preview,
  materialize_drafts_for_preview,
}

module _ (engine : ConsensusEngine) (m : Map ℕ ClaimId)
    (named : (k : ℕ)
      → drafts_claim engine.drafts k ≡ true
      → get m k ≡ some (draft_claim_preview_id k)) where
  resolve-preview :
      (claim_ref : ClaimRef)
      → resolve_claim_ref_for_submission engine m claim_ref
        ≡ resolve_claim_ref_for_preview engine.drafts claim_ref
  unfolding resolve_claim_ref_for_submission resolve_claim_ref_for_preview validate_claim_ref
      Preview.validate_claim_ref
  resolve-preview (committed claim_id) = refl
  resolve-preview (draft k) = elim (Option-cases (find_draft engine.drafts k)) [
    | inl g ↦ rw (validate_claim_ref, Preview.validate_claim_ref, g) refl
    | inr (d, g) ↦ elim (Bool-cases (is_claim d.entry)) [
      | inr h ↦ rw (validate_claim_ref, Preview.validate_claim_ref, g, h) refl
      | inl h ↦
          let t : targets_claim engine.drafts k ≡ true = rw (targets_claim, g) h in
          rw
            (
              validate_claim_ref,
              Preview.validate_claim_ref,
              g,
              h,
              own_claim_id,
              named k (targets_claim-drafts_claim engine.drafts k t),
            )
            refl
    ]
  ]

  transpose-preview :
      (claim_ref : Option ClaimRef)
      → transpose (resolve_claim_ref_for_submission engine m) claim_ref
        ≡ transpose (resolve_claim_ref_for_preview engine.drafts) claim_ref
  transpose-preview none = refl
  transpose-preview (some claim_ref) =
      ap (λ r. and_then r (λ claim_id. ok (some claim_id))) (resolve-preview claim_ref)

  materialize-preview :
      (k : ℕ) (content : DraftContent)
      → (is_claim content ≡ true → drafts_claim engine.drafts k ≡ true)
      → materialize_draft_for_submission engine m (record { id = k; entry = content })
        ≡ materialize_draft_for_preview engine.drafts engine.draft_author
            (record { id = k; entry = content })
  unfolding materialize_draft_for_submission materialize_draft materialize_draft_for_preview
  materialize-preview k (claim body kind parent) own =
      rw (own_claim_id, named k (own refl), transpose-preview parent) refl
  materialize-preview k (relation source target kind) own =
      rw (resolve-preview source, resolve-preview target) refl
  materialize-preview k (stance target position) own = rw (resolve-preview target) refl
  materialize-preview k (resolve claim_ref outcome) own = rw (resolve-preview claim_ref) refl
  materialize-preview k (comment claim_ref body) own = rw (transpose-preview claim_ref) refl

  collect-preview :
      (drafts : List DraftEntry)
      → ((k : ℕ) → drafts_claim drafts k ≡ true → drafts_claim engine.drafts k ≡ true)
      → collect (materialize_draft_for_submission engine m) drafts
        ≡ collect (materialize_draft_for_preview engine.drafts engine.draft_author) drafts
  collect-preview [] h = refl
  collect-preview (d ∷ drafts) h =
      rw
        (
          collect,
          materialize-preview d.id d.entry (λ c. h d.id (ground arith)),
          collect-preview drafts (λ k q. h k (ground arith)),
        )
        refl

-- If the identifiers that a submission gives to the drafts of claims are those of the preview,
-- the submission fails with the same error as the preview, or its entries are those of the
-- preview.
pub submission_bundle-preview :
    (engine : ConsensusEngine) (fresh : ℕ → ClaimId)
    → let m = assign_claim_ids fresh 0 engine.drafts [] in
      ((k : ℕ) → drafts_claim engine.drafts k ≡ true → get m k ≡ some (draft_claim_preview_id k))
      → submission_bundle engine fresh
        ≡ and_then (materialize_drafts_for_preview engine.drafts engine.draft_author) (λ entries.
          ok (record {
            draft_ids = ids engine.drafts;
            entries = entries;
            claim_id_map = sorted_mappings m;
          }))
unfolding submission_bundle materialize_drafts_for_preview
submission_bundle-preview engine fresh named =
    let m = assign_claim_ids fresh 0 engine.drafts [] in
    rw (collect-preview engine m named engine.drafts (λ k q. q)) refl
