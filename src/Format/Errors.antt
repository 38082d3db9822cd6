-- ===== src/Format/Errors.antt =====
-- The texts of `EngineError` of crates/consensus/src/engine.rs, by the attributes of its variants.
use prosthetic_conscience.Prelude.{ℕ, String, [], ◌∷◌, decimal, concat}
use prosthetic_conscience.Drafts.{
  EngineError, draft_not_found, draft_reference_must_target_claim, draft_referenced,
}

-- The debug form of a `DraftId`.
abbrev debug_id : ℕ → String
debug_id draft_id = concat ("DraftId(" ∷ decimal draft_id ∷ ")" ∷ [])

unfoldable pub engine_error_text : EngineError → String
engine_error_text (draft_not_found draft_id) = concat ("draft not found: " ∷ debug_id draft_id ∷ [])
engine_error_text (draft_reference_must_target_claim draft_id) =
    concat ("draft reference must target a claim: " ∷ debug_id draft_id ∷ [])
engine_error_text (draft_referenced draft_id referenced_by) = concat (
    "cannot remove draft "
    ∷ debug_id draft_id
    ∷ " because draft "
    ∷ debug_id referenced_by
    ∷ " depends on it"
    ∷ [])
