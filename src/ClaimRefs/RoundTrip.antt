-- ===== src/ClaimRefs/RoundTrip.antt =====
-- References to claims, written and read: `serialize` and `from_json_value` of `ClaimRef` in
-- crates/consensus/src/engine.rs, and `format_claim_ref` of crates/consensus/src/format.rs, whose
-- texts the model is shown and sends back.
use prosthetic_conscience.Prelude.{◌≡◌, ap, ◌∙◌, some, decimal}
use prosthetic_conscience.Json.{Json, IsLawful}
use prosthetic_conscience.Drafts.{ClaimRef, committed, draft}
use prosthetic_conscience.Format.Words.{format_claim_ref}
use prosthetic_conscience.ClaimRefs.{
  draft_of, from_text, from_json_value, serialize, Fits, from_json_value-serialize, from_text-forms,
}
use prosthetic_conscience.ClaimRefs.Decimals.{parse_u64-decimal}

from_text-format :
    (claim_ref : ClaimRef)
    → Fits claim_ref
    → from_text (format_claim_ref claim_ref) ≡ some claim_ref
unfolding format_claim_ref
from_text-format (committed claim_id) fits = (from_text-forms claim_id).0
from_text-format (draft draft_id) fits =
    (from_text-forms (decimal draft_id)).1 ∙ ap draft_of (parse_u64-decimal draft_id fits)

module _ {Value : Type 0} (json : Json Value) where
  -- With JSON values that keep what is put in them, a reference to a claim is read back from the
  -- object that it is serialized to, and from the text that it is formatted to; the number of a
  -- draft must be a machine word.
  pub claim_ref_round_trip :
      (claim_ref : ClaimRef)
      → IsLawful json
      → Fits claim_ref
      → (from_json_value json (serialize json claim_ref) ≡ some claim_ref)
        × (from_json_value json (json.text (format_claim_ref claim_ref)) ≡ some claim_ref)
  unfolding from_json_value
  claim_ref_round_trip claim_ref laws fits = (
    from_json_value-serialize json claim_ref laws fits,
    rw (from_json_value, laws.as_str_text (format_claim_ref claim_ref))
        (from_text-format claim_ref fits),
  )
