-- ===== src/Format/Words.antt =====
-- The words of crates/consensus/src/format.rs for the values of enumerations.
use prosthetic_conscience.Prelude.{String, Option, none, some, push_str, decimal}
use prosthetic_conscience.Types
use prosthetic_conscience.Types.{ClaimKind, RelationKind, Position, Outcome}
use prosthetic_conscience.Status
use prosthetic_conscience.Status.{EpistemicStatus}
use prosthetic_conscience.Drafts.{ClaimRef, committed, draft}

unfoldable pub format_claim_ref : ClaimRef → String
format_claim_ref (committed claim_id) = push_str "claim:" claim_id
format_claim_ref (draft draft_id) = push_str "draft:" (decimal draft_id)

abbrev pub format_status : EpistemicStatus → String
format_status Status.established = "Established"
format_status Status.unexamined = "Unexamined"
format_status Status.contested = "Contested"
format_status Status.defeated = "Defeated"
format_status Status.unresolved = "Unresolved"

abbrev pub format_position : Position → String
format_position Types.block = "block"
format_position Types.object = "object"
format_position Types.stand_aside = "stand-aside"
format_position Types.abstain = "abstain"
format_position Types.consent = "consent"
format_position Types.support = "support"
format_position Types.champion = "champion"

abbrev pub format_kind : ClaimKind → String
format_kind Types.item = "item"
format_kind Types.proposal = "proposal"
format_kind Types.fact = "fact"
format_kind Types.conditional = "conditional"
format_kind Types.value = "value"
format_kind Types.reference = "reference"

abbrev pub format_relation_kind : RelationKind → String
format_relation_kind Types.attacks = "attacks"
format_relation_kind Types.supports = "supports"

abbrev pub format_outcome : Outcome → String
format_outcome Types.accepted = "Accepted"
format_outcome Types.rejected = "Rejected"
format_outcome Types.tabled = "Tabled"
format_outcome Types.withdrawn = "Withdrawn"

-- `status.map(format_status).unwrap_or(other)`.
abbrev pub status_or : String → Option EpistemicStatus → String
status_or other none = other
status_or other (some status) = format_status status
