-- ===== src/Drafts.antt =====
-- crates/consensus/src/drafts.rs, and the draft types of crates/consensus/src/engine.rs. The number
-- that `DraftId` wraps stands for it. The operations take the committed entries as a context that
-- they do not read, so it is left out here.
pub mod References
pub mod Closed
pub mod Reduced
use prosthetic_conscience.Prelude.{
  ℕ, zero, suc, Bool, true, false, not, ◌&&◌, ◌||◌, String, List, [], ◌∷◌, ◌++◌, Option, none, some,
  nat_beq, if◌then◌else◌, find_first, filterb, add64, ◌≡◌, refl, ◌⊎◌, inl, inr,
}
use prosthetic_conscience.Types.{ClaimId, ClaimKind, RelationKind, Position, Outcome}

pub data ClaimRef : Type 0 where
  committed : ClaimId → ClaimRef
  draft : ℕ → ClaimRef

pub data DraftContent : Type 0 where
  claim : (body : String) (claim_kind : ClaimKind) (parent : Option ClaimRef) → DraftContent
  relation : (source target : ClaimRef) (kind : RelationKind) → DraftContent
  stance : (target : ClaimRef) (position : Position) → DraftContent
  resolve : (claim_ref : ClaimRef) (outcome : Outcome) → DraftContent
  comment : (claim_ref : Option ClaimRef) (body : String) → DraftContent

pub record DraftEntry : Type 0 where
  pub id : ℕ
  pub entry : DraftContent

pub data EngineError : Type 0 where
  draft_not_found : ℕ → EngineError
  draft_reference_must_target_claim : ℕ → EngineError
  draft_referenced : (draft_id referenced_by : ℕ) → EngineError

pub data Notice : Type 0 where
  not_found_notice : ℕ → Notice
  must_target_claim_notice : ℕ → Notice
  referenced_notice : (draft_id referenced_by : ℕ) → Notice

pub record State : Type 0 where
  pub drafts : List DraftEntry
  pub next_draft_id : ℕ
  pub last_notice : Option Notice

pub data Event : Type 0 where
  draft_claim_requested :
      (body : String) (claim_kind : ClaimKind) (parent : Option ClaimRef) → Event
  remove_draft_requested : (draft_id : ℕ) → Event

pub data Result (A : Type 0) : Type 0 where
  ok : A → Result A
  err : EngineError → Result A

pub Result-cases :
    {A : Type 0} (r : Result A) → ((a : A) × (r ≡ ok a)) ⊎ ((error : EngineError) × (r ≡ err error))
Result-cases (ok a) = inl (a, refl)
Result-cases (err error) = inr (error, refl)

abbrev pub init : State
init = record { drafts = []; next_draft_id = 0; last_notice = none }

abbrev pub find_draft : List DraftEntry → ℕ → Option DraftEntry
find_draft drafts draft_id = find_first (λ d. nat_beq d.id draft_id) drafts

abbrev pub is_claim : DraftContent → Bool
is_claim (claim body claim_kind parent) = true
is_claim _ = false

-- The closure `references`, and its use on an optional reference.
abbrev pub refers_to : ℕ → ClaimRef → Bool
refers_to draft_id (committed claim_id) = false
refers_to draft_id (draft id) = nat_beq id draft_id

abbrev pub optionally_refers_to : ℕ → Option ClaimRef → Bool
optionally_refers_to draft_id none = false
optionally_refers_to draft_id (some claim_ref) = refers_to draft_id claim_ref

unfoldable pub draft_references_draft : DraftContent → ℕ → Bool
draft_references_draft (claim body claim_kind parent) draft_id =
    optionally_refers_to draft_id parent
draft_references_draft (relation source target kind) draft_id =
    refers_to draft_id source || refers_to draft_id target
draft_references_draft (stance target position) draft_id = refers_to draft_id target
draft_references_draft (resolve claim_ref outcome) draft_id = refers_to draft_id claim_ref
draft_references_draft (comment claim_ref body) draft_id = optionally_refers_to draft_id claim_ref

-- The error that validation stops with, if there is one.
unfoldable pub validate_claim_ref : State → ClaimRef → Option EngineError
validate_claim_ref state (committed claim_id) = none
validate_claim_ref state (draft draft_id) = elim (find_draft state.drafts draft_id) [
  | some d ↦ if is_claim d.entry then none else some (draft_reference_must_target_claim draft_id)
  | none ↦ some (draft_not_found draft_id)
]

unfoldable pub validate_optional_claim_ref : State → Option ClaimRef → Option EngineError
unfolding validate_claim_ref
validate_optional_claim_ref state none = none
validate_optional_claim_ref state (some claim_ref) = validate_claim_ref state claim_ref

-- `alloc_draft_id`, and the push of the draft that follows it.
unfoldable pub push_draft : State → DraftContent → State × ℕ
push_draft state content = (
  record state {
    drafts = state.drafts ++ record { id = state.next_draft_id; entry = content } ∷ [];
    next_draft_id = add64 state.next_draft_id 1;
  },
  state.next_draft_id,
)

-- The operator `?` on a validation.
abbrev pub guarded : {A : Type 0} → Option EngineError → Result A → Result A
guarded none rest = rest
guarded (some error) rest = err error

unfoldable pub draft_claim : State → String → ClaimKind → Option ClaimRef → Result (State × ℕ)
unfolding validate_optional_claim_ref push_draft
draft_claim state body claim_kind parent =
    guarded (validate_optional_claim_ref state parent)
      (ok (push_draft state (claim body claim_kind parent)))

unfoldable pub draft_relation : State → ClaimRef → ClaimRef → RelationKind → Result (State × ℕ)
unfolding validate_claim_ref push_draft
draft_relation state source target kind = guarded (validate_claim_ref state source) (
    guarded (validate_claim_ref state target) (ok (push_draft state (relation source target kind))))

unfoldable pub draft_stance : State → ClaimRef → Position → Result (State × ℕ)
unfolding validate_claim_ref push_draft
draft_stance state target position =
    guarded (validate_claim_ref state target) (ok (push_draft state (stance target position)))

unfoldable pub draft_resolve : State → ClaimRef → Outcome → Result (State × ℕ)
unfolding validate_claim_ref push_draft
draft_resolve state claim_ref outcome =
    guarded (validate_claim_ref state claim_ref) (ok (push_draft state (resolve claim_ref outcome)))

unfoldable pub draft_comment : State → String → Option ClaimRef → Result (State × ℕ)
unfolding validate_optional_claim_ref push_draft
draft_comment state body claim_ref =
    guarded (validate_optional_claim_ref state claim_ref)
      (ok (push_draft state (comment claim_ref body)))

-- `Vec::remove` at the position of the first draft with an identifier.
unfoldable pub remove_first : List DraftEntry → ℕ → List DraftEntry
remove_first [] draft_id = []
remove_first (d ∷ drafts) draft_id =
    let rest = remove_first drafts draft_id in if nat_beq d.id draft_id then drafts else d ∷ rest

-- Another draft that refers to `draft_id`.
abbrev pub referencing : List DraftEntry → ℕ → Option DraftEntry
referencing drafts draft_id =
    find_first (λ d. draft_references_draft d.entry draft_id)
      (filterb (λ d. not (nat_beq d.id draft_id)) drafts)

unfoldable pub remove_draft : State → ℕ → Result State
unfolding remove_first
remove_draft state draft_id =
    let removed = ok (record state { drafts = remove_first state.drafts draft_id }) in
    elim (find_draft state.drafts draft_id) [
      | none ↦ err (draft_not_found draft_id)
      | some d ↦
          if not (is_claim d.entry) then removed else elim (referencing state.drafts draft_id) [
            | none ↦ removed
            | some other ↦ err (draft_referenced draft_id other.id)
          ]
    ]

abbrev pub map_notice : EngineError → Notice
map_notice (draft_not_found draft_id) = not_found_notice draft_id
map_notice (draft_reference_must_target_claim draft_id) = must_target_claim_notice draft_id
map_notice (draft_referenced draft_id referenced_by) = referenced_notice draft_id referenced_by

abbrev pub noticed : State → Result State → State
noticed state (ok next) = record next { last_notice = none }
noticed state (err error) = record state { last_notice = some (map_notice error) }

abbrev pub state_of : Result (State × ℕ) → Result State
state_of (ok (next, draft_id)) = ok next
state_of (err error) = err error

pub data Effect : Type 0 where

pub record Transition : Type 0 where
  pub state : State
  pub effects : List Effect

unfoldable pub reduce : State → Event → Transition
unfolding draft_claim remove_draft
reduce state (draft_claim_requested body claim_kind parent) = record {
  state = noticed state (state_of (draft_claim state body claim_kind parent));
  effects = [];
}
reduce state (remove_draft_requested draft_id) = record {
  state = noticed state (remove_draft state draft_id);
  effects = [];
}

pub record View : Type 0 where
  pub drafts : List DraftEntry
  pub notice : Option Notice

abbrev pub view : State → View
view state = record { drafts = state.drafts; notice = state.last_notice }
