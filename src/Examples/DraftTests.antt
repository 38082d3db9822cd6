-- ===== src/Examples/DraftTests.antt =====
-- Tests and instances for drafts.rs and engine.rs: a claim, and a relation that refers to it.
use prosthetic_conscience.Prelude.{length, ◌≡◌, refl, [], ◌∷◌, some, none, arith}
use prosthetic_conscience.Engine.{ConsensusEngine, SubmissionBundle, submission_bundle}
use prosthetic_conscience.Engine.Submission.{submission_bundle-Succeeds}
use prosthetic_conscience.Types.{proposal, attacks, block, accepted}
use prosthetic_conscience.Drafts.{
  ok, committed, draft, claim, relation, State, draft_claim_requested, err, draft_referenced,
  draft_claim, draft_relation, draft_stance, draft_resolve, draft_comment, remove_draft, reduce,
  draft_references_draft,
}
use prosthetic_conscience.Drafts.Closed.{IsClosed, YieldsClosed, draft-YieldsClosed}
use prosthetic_conscience.Drafts.Reduced.{reduce-IsClosed}

abbrev pair : State
pair = record {
  drafts =
      record { id = 3; entry = claim "We move." proposal none }
      ∷ record { id = 5; entry = relation (committed "cost") (draft 3) attacks }
      ∷ [];
  next_draft_id = 6;
  last_notice = none;
}

-- The claim cannot go before the relation.
pair_removal : remove_draft pair 3 ≡ err (draft_referenced 3 5)
unfolding remove_draft draft_references_draft
pair_removal = refl

pair-IsClosed : IsClosed pair
unfolding draft_references_draft
pair-IsClosed = record {
  below = (omega arith, (omega arith, tt));
  distinct = (refl, (refl, tt));
  resolved = (λ r q. cc, (λ r q. ground arith, tt));
}

reduce-IsClosed_example :
    IsClosed (reduce pair (draft_claim_requested "So?" proposal (some (draft 3)))).state
reduce-IsClosed_example =
    reduce-IsClosed pair (draft_claim_requested "So?" proposal (some (draft 3))) (omega arith)
      pair-IsClosed

draft-YieldsClosed_example :
    YieldsClosed (λ p. p.0) (draft_claim pair "So?" proposal none)
    × YieldsClosed (λ p. p.0) (draft_relation pair (draft 3) (committed "cost") attacks)
    × YieldsClosed (λ p. p.0) (draft_stance pair (draft 3) block)
    × YieldsClosed (λ p. p.0) (draft_resolve pair (draft 3) accepted)
    × YieldsClosed (λ p. p.0) (draft_comment pair "So?" none)
draft-YieldsClosed_example =
    draft-YieldsClosed pair (omega arith) pair-IsClosed "So?" proposal attacks block accepted
      (draft 3) (committed "cost") none

abbrev engine : ConsensusEngine
engine = record { log = []; drafts = pair.drafts; next_draft_id = 6; draft_author = "ann" }

submission_bundle-Succeeds_example :
    (bundle : SubmissionBundle) × (submission_bundle engine (λ n. "new") ≡ ok bundle)
    × (bundle.draft_ids ≡ 3 ∷ 5 ∷ [])
    × (length bundle.entries ≡ 2)
submission_bundle-Succeeds_example =
    submission_bundle-Succeeds engine (λ n. "new") pair-IsClosed.resolved
