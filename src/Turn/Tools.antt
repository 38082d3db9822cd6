-- ===== src/Turn/Tools.antt =====
-- What the tools of crates/consensus/src/tools.rs do to the engine, by their names and results.
use mathlib.Core.Bool.{false≢true}
use prosthetic_conscience.Prelude.{
  ℕ, ◌≡◌, refl, sym, Bool, true, false, not, ◌&&◌, ◌||◌, String, [], ◌∷◌, ◌==◌, string_eq,
  if◌then◌else◌, ◌∙◌, subst, equals→eq,
}
use prosthetic_conscience.Json.{Json, Parsed}
use prosthetic_conscience.Drafts
use prosthetic_conscience.Engine.{ConsensusEngine}
use prosthetic_conscience.Engine.Drafting
use prosthetic_conscience.Engine.Queries
use prosthetic_conscience.ToolDispatch.{
  Shown, Step, with_args, with_engine, run_claim_detail, run_draft_claim, run_draft_relation,
  run_draft_stance, run_draft_resolve, run_draft_comment, run_remove_draft, run_preview_overview,
  run_preview_claim_detail, run_impact_analysis, dispatch,
}
use prosthetic_conscience.ToolDispatch.Arguments.{
  Result, ok, err, require_str, require_u64, require_claim_ref, optional_claim_ref,
  require_claim_kind, require_relation_kind, require_position, require_outcome,
}
use prosthetic_conscience.Turn.Trace.{is_draft_mutation_tool}

pub if_cases :
    {A : Type 0} (P : A → Type 0) (b : Bool) {x y : A}
    → (b ≡ true → P x)
    → (b ≡ false → P y)
    → P (if b then x else y)
if_cases P true f g = f refl
if_cases P false f g = g refl

-- A tool that is advertised to the model.
abbrev pub is_safe : String → Bool
is_safe name = not (name == "submit_drafts" || name == "clear_drafts")

named :
    (literal name : String) (P : String → Bool) {b : Bool}
    → P literal ≡ b
    → (name == literal) ≡ true
    → P name ≡ b
named literal name P {b = b} h e = subst (λ n. P n ≡ b) (sym (equals→eq name literal e)) h

module _ {Value : Type 0} where
  abbrev pub succeeded : Result Value → Bool
  succeeded (ok value) = true
  succeeded (err error) = false

  -- A step that fails keeps the engine.
  record FailsKept (engine : ConsensusEngine) (s : Step Value) : Type 0 where
    kept : succeeded s.1 ≡ false → s.0 ≡ engine

  with_args-FailsKept :
      {A : Type 0} (engine : ConsensusEngine) (r : Result A) (f : A → Step Value)
      → ((a : A) → FailsKept engine (f a))
      → FailsKept engine (with_args engine r f)
  with_args-FailsKept engine (ok a) f h = h a
  with_args-FailsKept engine (err error) f h = record { kept = λ _. refl }

  with_engine-FailsKept :
      {A : Type 0} (engine : ConsensusEngine) (r : Drafts.Result A) (f : A → Step Value)
      → ((a : A) → FailsKept engine (f a))
      → FailsKept engine (with_engine engine r f)
  with_engine-FailsKept engine (Drafts.ok a) f h = h a
  with_engine-FailsKept engine (Drafts.err error) f h = record { kept = λ _. refl }

  -- A step that is kept, whatever it returns.
  with_args-kept :
      {A : Type 0} (engine : ConsensusEngine) (r : Result A) (f : A → Step Value)
      → ((a : A) → (f a).0 ≡ engine)
      → (with_args engine r f).0 ≡ engine
  with_args-kept engine (ok a) f h = h a
  with_args-kept engine (err error) f h = refl

  with_engine-kept :
      {A : Type 0} (engine : ConsensusEngine) (r : Drafts.Result A) (f : A → Step Value)
      → ((a : A) → (f a).0 ≡ engine)
      → (with_engine engine r f).0 ≡ engine
  with_engine-kept engine (Drafts.ok a) f h = h a
  with_engine-kept engine (Drafts.err error) f h = refl

  -- What a tool does to the engine: nothing, unless it has changed the drafts and says so.
  pub record IsHonest (engine : ConsensusEngine) (name : String) (s : Step Value) : Type 0 where
    pub undrafted : (succeeded s.1 && is_draft_mutation_tool name) ≡ false → s.0 ≡ engine

  drafting :
      (engine : ConsensusEngine) (name : String) (s : Step Value)
      → is_draft_mutation_tool name ≡ true
      → FailsKept engine s
      → IsHonest engine name s
  drafting engine name (next, ok value) e h = record {
    undrafted = λ c. h.kept (sym (cc (rw e at c)));
  }
  drafting engine name (next, err error) e h = record { undrafted = λ c. h.kept refl }

  -- The arms of `dispatch`: on a tool that only reads, on one that drafts, and on one that is not
  -- advertised.
  query_arm :
      (engine : ConsensusEngine) (name literal : String) (s : Step Value) {rest : Step Value}
      → s.0 ≡ engine
      → IsHonest engine name rest
      → IsHonest engine name (if name == literal then s else rest)
  query_arm engine name literal s h next =
      if_cases (IsHonest engine name) (name == literal) (λ _. record { undrafted = λ _. h })
        (λ _. next)

  draft_arm :
      (engine : ConsensusEngine) (name literal : String) {s rest : Step Value}
      → is_draft_mutation_tool literal ≡ true
      → FailsKept engine s
      → IsHonest engine name rest
      → IsHonest engine name (if name == literal then s else rest)
  draft_arm engine name literal {s = s} d h next =
      if_cases (IsHonest engine name) (name == literal)
        (λ e. drafting engine name s (named literal name is_draft_mutation_tool d e) h) (λ _. next)

  other_arm :
      (engine : ConsensusEngine) (name literal : String) (s : Step Value) {rest : Step Value}
      → is_safe literal ≡ false
      → is_safe name ≡ true
      → IsHonest engine name rest
      → IsHonest engine name (if name == literal then s else rest)
  other_arm engine name literal s u safe next =
      if_cases (IsHonest engine name) (name == literal)
        (λ e. absurd (false≢true (sym (named literal name is_safe u e) ∙ safe))) (λ _. next)

module _ {Value : Type 0} (json : Json Value) (to_value : Shown → Parsed Value) where
  -- The end of each arm that drafts.
  drafted-FailsKept :
      (engine : ConsensusEngine) (r : Drafts.Result (ConsensusEngine × ℕ))
      → FailsKept engine (
          with_engine engine r (λ (next, draft_id).
            (next, ok (json.object (("draft_id", json.number draft_id) ∷ [])))))
  drafted-FailsKept engine r =
      with_engine-FailsKept engine r _ (λ _. record { kept = λ h. absurd (false≢true (sym h)) })

  run_draft_claim-FailsKept :
      (engine : ConsensusEngine) (args : Value)
      → FailsKept engine (run_draft_claim json to_value engine args)
  unfolding run_draft_claim
  run_draft_claim-FailsKept engine args =
      with_args-FailsKept engine (require_str json args "body") _ (λ body.
        with_args-FailsKept engine (require_claim_kind json args "kind") _ (λ kind.
          with_args-FailsKept engine (optional_claim_ref json args "parent") _
            (λ parent. drafted-FailsKept engine (Drafting.draft_claim engine body kind parent))))

  run_draft_relation-FailsKept :
      (engine : ConsensusEngine) (args : Value)
      → FailsKept engine (run_draft_relation json to_value engine args)
  unfolding run_draft_relation
  run_draft_relation-FailsKept engine args =
      with_args-FailsKept engine (require_claim_ref json args "source") _ (λ source.
        with_args-FailsKept engine (require_claim_ref json args "target") _ (λ target.
          with_args-FailsKept engine (require_relation_kind json args "kind") _
            (λ kind. drafted-FailsKept engine (Drafting.draft_relation engine source target kind))))

  run_draft_stance-FailsKept :
      (engine : ConsensusEngine) (args : Value)
      → FailsKept engine (run_draft_stance json to_value engine args)
  unfolding run_draft_stance
  run_draft_stance-FailsKept engine args =
      with_args-FailsKept engine (require_claim_ref json args "target") _ (λ target.
        with_args-FailsKept engine (require_position json args "position") _
          (λ position. drafted-FailsKept engine (Drafting.draft_stance engine target position)))

  run_draft_resolve-FailsKept :
      (engine : ConsensusEngine) (args : Value)
      → FailsKept engine (run_draft_resolve json to_value engine args)
  unfolding run_draft_resolve
  run_draft_resolve-FailsKept engine args =
      with_args-FailsKept engine (require_claim_ref json args "claim") _ (λ claim_ref.
        with_args-FailsKept engine (require_outcome json args "outcome") _
          (λ outcome. drafted-FailsKept engine (Drafting.draft_resolve engine claim_ref outcome)))

  run_draft_comment-FailsKept :
      (engine : ConsensusEngine) (args : Value)
      → FailsKept engine (run_draft_comment json to_value engine args)
  unfolding run_draft_comment
  run_draft_comment-FailsKept engine args =
      with_args-FailsKept engine (require_str json args "body") _ (λ body.
        with_args-FailsKept engine (optional_claim_ref json args "claim") _
          (λ claim_ref. drafted-FailsKept engine (Drafting.draft_comment engine body claim_ref)))

  run_remove_draft-FailsKept :
      (engine : ConsensusEngine) (args : Value)
      → FailsKept engine (run_remove_draft json to_value engine args)
  unfolding run_remove_draft
  run_remove_draft-FailsKept engine args =
      with_args-FailsKept engine (require_u64 json args "draft_id") _ (λ id.
        with_engine-FailsKept engine (Drafting.remove_draft engine id) _
          (λ _. record { kept = λ h. absurd (false≢true (sym h)) }))

  run_preview_claim_detail-kept :
      (engine : ConsensusEngine) (args : Value)
      → (run_preview_claim_detail json to_value engine args).0 ≡ engine
  unfolding run_preview_claim_detail
  run_preview_claim_detail-kept engine args =
      with_args-kept engine (require_claim_ref json args "claim") _ (λ claim_ref.
        with_engine-kept engine (Queries.preview_claim_detail engine claim_ref) _ (λ _. refl))

  pub dispatch-IsHonest :
      (engine : ConsensusEngine) (name : String) (args : Value)
      → is_safe name ≡ true
      → IsHonest engine name (dispatch json to_value engine name args)
  unfolding dispatch run_claim_detail run_preview_overview run_impact_analysis
  dispatch-IsHonest engine name args safe = query_arm engine name "overview" _ refl (
      query_arm engine name "claim_detail" _ (with_args-kept engine _ _ (λ _. refl)) (
        draft_arm engine name "draft_claim" refl (run_draft_claim-FailsKept engine args) (
          draft_arm engine name "draft_relation" refl (run_draft_relation-FailsKept engine args) (
            draft_arm engine name "draft_stance" refl (run_draft_stance-FailsKept engine args) (
              draft_arm engine name "draft_resolve" refl (run_draft_resolve-FailsKept engine args) (
                draft_arm engine name "draft_comment" refl (run_draft_comment-FailsKept engine args)
                  (query_arm engine name "show_drafts" _ refl (
                    draft_arm engine name "remove_draft" refl
                      (run_remove_draft-FailsKept engine args)
                      (other_arm engine name "submit_drafts" _ refl safe (
                        other_arm engine name "clear_drafts" _ refl safe (
                          query_arm engine name "preview_overview" _
                            (with_engine-kept engine _ _ (λ _. refl))
                            (query_arm engine name "preview_claim_detail" _
                              (run_preview_claim_detail-kept engine args)
                              (query_arm engine name "impact_analysis" _
                                (with_engine-kept engine _ _ (λ _. refl))
                                (record { undrafted = λ _. refl }))))))))))))))
