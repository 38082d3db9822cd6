-- ===== src/Engine/Drafting.antt =====
-- The drafts that the engine of engine.rs keeps: creation, removal and clearing. The engine has its
-- own copies of `draft_references_draft` and of the validation; the copy of the former is the
-- function of the same name in drafts.rs, letter by letter.
use prosthetic_conscience.Prelude.{
  ℕ, ◌≡◌, refl, sym, String, [], ◌∷◌, ◌++◌, Option, none, some, if◌then◌else◌, add64, inl, inr,
  Bool-cases, Option-cases,
}
use prosthetic_conscience.Types.{ClaimKind, RelationKind, Position, Outcome}
use prosthetic_conscience.Drafts
use prosthetic_conscience.Drafts.{
  ClaimRef, committed, draft, DraftContent, claim, relation, stance, resolve, comment, DraftEntry,
  EngineError, draft_not_found, draft_referenced, State, Result, ok, err, find_draft, is_claim,
  guarded, referencing, remove_first,
}
use prosthetic_conscience.Engine.{ConsensusEngine, validate_claim_ref}

unfoldable pub validate_optional_claim_ref : ConsensusEngine → Option ClaimRef → Option EngineError
unfolding validate_claim_ref
validate_optional_claim_ref engine none = none
validate_optional_claim_ref engine (some claim_ref) = validate_claim_ref engine claim_ref

-- `alloc_draft_id`, and the push of the draft that follows it.
unfoldable pub push_draft : ConsensusEngine → DraftContent → ConsensusEngine × ℕ
push_draft engine content =
    let id = engine.next_draft_id in
    (
      record engine {
        next_draft_id = add64 id 1;
        drafts = engine.drafts ++ record { id = id; entry = content } ∷ [];
      },
      id,
    )

unfoldable pub draft_claim :
    ConsensusEngine → String → ClaimKind → Option ClaimRef → Result (ConsensusEngine × ℕ)
unfolding validate_optional_claim_ref push_draft
draft_claim engine body kind parent =
    guarded (validate_optional_claim_ref engine parent)
      (ok (push_draft engine (claim body kind parent)))

unfoldable pub draft_relation :
    ConsensusEngine → ClaimRef → ClaimRef → RelationKind → Result (ConsensusEngine × ℕ)
unfolding push_draft
draft_relation engine source target kind = guarded (validate_claim_ref engine source) (
    guarded (validate_claim_ref engine target)
      (ok (push_draft engine (relation source target kind))))

unfoldable pub draft_stance : ConsensusEngine → ClaimRef → Position → Result (ConsensusEngine × ℕ)
unfolding push_draft
draft_stance engine target position =
    guarded (validate_claim_ref engine target) (ok (push_draft engine (stance target position)))

unfoldable pub draft_resolve : ConsensusEngine → ClaimRef → Outcome → Result (ConsensusEngine × ℕ)
unfolding push_draft
draft_resolve engine claim_ref outcome =
    guarded (validate_claim_ref engine claim_ref)
      (ok (push_draft engine (resolve claim_ref outcome)))

unfoldable pub draft_comment :
    ConsensusEngine → String → Option ClaimRef → Result (ConsensusEngine × ℕ)
unfolding validate_optional_claim_ref push_draft
draft_comment engine body claim_ref =
    guarded (validate_optional_claim_ref engine claim_ref)
      (ok (push_draft engine (comment claim_ref body)))

unfoldable pub remove_draft : ConsensusEngine → ℕ → Result ConsensusEngine
remove_draft engine draft_id =
    let removed = ok (record engine { drafts = remove_first engine.drafts draft_id }) in
    elim (find_draft engine.drafts draft_id) [
      | none ↦ err (draft_not_found draft_id)
      | some d ↦
          if is_claim d.entry
          then elim (referencing engine.drafts draft_id) [
            | some other ↦ err (draft_referenced draft_id other.id)
            | none ↦ removed
          ]
          else removed
    ]

abbrev pub clear_drafts : ConsensusEngine → ConsensusEngine
clear_drafts engine = record engine { drafts = [] }

-- The engine's drafts and numbers, put in a state of drafts.rs.
abbrev pub within : State → ConsensusEngine → State
within s engine = record s { drafts = engine.drafts; next_draft_id = engine.next_draft_id }

abbrev pub within_first : State → Result (ConsensusEngine × ℕ) → Result (State × ℕ)
within_first s (ok (engine, draft_id)) = ok (within s engine, draft_id)
within_first s (err error) = err error

abbrev pub within_all : State → Result ConsensusEngine → Result State
within_all s (ok engine) = ok (within s engine)
within_all s (err error) = err error

module _ (s : State) (engine : ConsensusEngine) where
  validate-within :
      (claim_ref : ClaimRef)
      → validate_claim_ref engine claim_ref ≡ Drafts.validate_claim_ref (within s engine) claim_ref
  unfolding validate_claim_ref Drafts.validate_claim_ref
  validate-within (committed claim_id) = refl
  validate-within (draft draft_id) = refl

  validate_optional-within :
      (claim_ref : Option ClaimRef)
      → validate_optional_claim_ref engine claim_ref
        ≡ Drafts.validate_optional_claim_ref (within s engine) claim_ref
  unfolding validate_optional_claim_ref Drafts.validate_optional_claim_ref
  validate_optional-within none = refl
  validate_optional-within (some claim_ref) = validate-within claim_ref

  guarded-within :
      (check : Option EngineError) (content : DraftContent)
      → within_first s (guarded check (ok (push_draft engine content)))
        ≡ guarded check (ok (Drafts.push_draft (within s engine) content))
  unfolding push_draft Drafts.push_draft
  guarded-within none content = refl
  guarded-within (some error) content = refl

  relation-within :
      (first second : Option EngineError) (content : DraftContent)
      → within_first s (guarded first (guarded second (ok (push_draft engine content))))
        ≡ guarded first (guarded second (ok (Drafts.push_draft (within s engine) content)))
  relation-within none second content = guarded-within second content
  relation-within (some error) second content = refl

  remove_draft-within :
      (draft_id : ℕ)
      → within_all s (remove_draft engine draft_id) ≡ Drafts.remove_draft (within s engine) draft_id
  unfolding remove_draft Drafts.remove_draft
  remove_draft-within draft_id = elim (Option-cases (find_draft engine.drafts draft_id)) [
    | inl g ↦ rw (within_all, Drafts.remove_draft, g) refl
    | inr (d, g) ↦ elim (Bool-cases (is_claim d.entry)) [
      | inr h ↦ rw (within_all, Drafts.remove_draft, g, h) refl
      | inl h ↦ elim (Option-cases (referencing engine.drafts draft_id)) [
        | inl f ↦ rw (within_all, Drafts.remove_draft, g, h, f) refl
        | inr (other, f) ↦ rw (within_all, Drafts.remove_draft, g, h, f) refl
      ]
    ]
  ]

-- On the same drafts and the same next number, the six operations on drafts give in the engine
-- what they give in the state of drafts.rs: the same error, or the same number and the same drafts.
pub drafting-within :
    (s : State) (engine : ConsensusEngine) (body : String) (kind : ClaimKind)
    (relation_kind : RelationKind) (position : Position) (outcome : Outcome) (a b : ClaimRef)
    (o : Option ClaimRef) (draft_id : ℕ)
    → (within_first s (draft_claim engine body kind o)
        ≡ Drafts.draft_claim (within s engine) body kind o)
      × (within_first s (draft_relation engine a b relation_kind)
          ≡ Drafts.draft_relation (within s engine) a b relation_kind)
      × (within_first s (draft_stance engine a position)
          ≡ Drafts.draft_stance (within s engine) a position)
      × (within_first s (draft_resolve engine a outcome)
          ≡ Drafts.draft_resolve (within s engine) a outcome)
      × (within_first s (draft_comment engine body o)
          ≡ Drafts.draft_comment (within s engine) body o)
      × (within_all s (remove_draft engine draft_id)
          ≡ Drafts.remove_draft (within s engine) draft_id)
unfolding draft_claim draft_relation draft_stance draft_resolve draft_comment Drafts.draft_claim
    Drafts.draft_relation Drafts.draft_stance Drafts.draft_resolve Drafts.draft_comment
drafting-within s engine body kind relation_kind position outcome a b o draft_id = (
  rw (sym (validate_optional-within s engine o)) (guarded-within s engine _ _),
  rw (sym (validate-within s engine a), sym (validate-within s engine b))
      (relation-within s engine _ _ _),
  rw (sym (validate-within s engine a)) (guarded-within s engine _ _),
  rw (sym (validate-within s engine a)) (guarded-within s engine _ _),
  rw (sym (validate_optional-within s engine o)) (guarded-within s engine _ _),
  remove_draft-within s engine draft_id,
)
