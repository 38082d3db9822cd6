-- ===== src/Types.antt =====
-- crates/consensus/src/types.rs: the entries of the log and the materialized state. A claim's
-- identifier is the text that `ClaimId` wraps, and a node the number that `NodeId` wraps.
use prosthetic_conscience.Prelude.{
  ℕ, Bool, true, false, String, List, [], Option, string_eq, pair_eq,
}
use prosthetic_conscience.Map.{Map}

abbrev pub ClaimId : Type 0
ClaimId = String

pub data ClaimKind : Type 0 where
  item proposal fact conditional value reference : ClaimKind

pub data RelationKind : Type 0 where
  attacks supports : RelationKind

pub data Position : Type 0 where
  block object stand_aside abstain consent support champion : Position

unfoldable pub is_negative : Position → Bool
is_negative block = true
is_negative object = true
is_negative _ = false

pub data Outcome : Type 0 where
  accepted rejected tabled withdrawn : Outcome

pub data Entry : Type 0 where
  claim :
      (claim_id : ClaimId) (author body : String) (claim_kind : ClaimKind)
      (parent_id : Option ClaimId)
      → Entry
  relation : (source_id target_id : ClaimId) (kind : RelationKind) (author : String) → Entry
  stance : (target_id : ClaimId) (author : String) (position : Position) → Entry
  resolve : (claim_id : ClaimId) (author : String) (outcome : Outcome) → Entry
  comment : (claim_id : Option ClaimId) (author body : String) → Entry

pub record Resolution : Type 0 where
  pub outcome : Outcome
  pub author : String

pub record ClaimState : Type 0 where
  pub id : ClaimId
  pub author : String
  pub body : String
  pub kind : ClaimKind
  pub parent_id : Option ClaimId
  pub resolution : Option Resolution

pub record RelationState : Type 0 where
  pub source_id : ClaimId
  pub target_id : ClaimId
  pub kind : RelationKind
  pub author : String

pub record StanceState : Type 0 where
  pub target_id : ClaimId
  pub author : String
  pub position : Position

pub record MaterializedState : Type 0 where
  pub claims : Map ClaimId ClaimState
  pub relations : List RelationState
  pub stances : Map (ClaimId × String) StanceState
  pub node_map : Map ClaimId ℕ
  pub next_node_id : ℕ

abbrev pub new : MaterializedState
new = record { claims = []; relations = []; stances = []; node_map = []; next_node_id = 0 }
