-- ===== src/Examples/BufferTests.antt =====
-- Tests of the entry buffer and of the previews.
use prosthetic_conscience.Prelude.{
  ℕ, ◌≡◌, refl, subst, true, List, [], ◌∷◌, none, some, nat_eq, nat_beq, arith, decimal,
  if◌then◌else◌,
}
use prosthetic_conscience.Json.{Parsed, parsed, failed}
use prosthetic_conscience.Types
use prosthetic_conscience.Types.{Entry, ClaimId}
use prosthetic_conscience.Map.{get, contains_key, update}
use prosthetic_conscience.Drafts
use prosthetic_conscience.Drafts.{
  ClaimRef, committed, draft, claim, relation, comment, DraftEntry, draft_referenced,
  draft_references_draft,
}
use prosthetic_conscience.Engine
use prosthetic_conscience.Engine.{ConsensusEngine, submission_bundle, assign_claim_ids, and_then}
use prosthetic_conscience.Engine.Submission.{drafts_claim}
use prosthetic_conscience.EntryBuffer
use prosthetic_conscience.EntryBuffer.{
  EntryBuffer, PendingSubmission, engine_error, begin_submission, finish_submission,
}
use prosthetic_conscience.EntryBuffer.Complete.{run, run_complete}
use prosthetic_conscience.EntryBuffer.Submission.{
  finish_submission-referenced, finish_submission-clears,
}
use prosthetic_conscience.Preview.{draft_claim_preview_id, materialize_drafts_for_preview}
use prosthetic_conscience.Preview.Submitted.{submission_bundle-preview}

-- Payloads are numbers here: 9 is none of an entry.
abbrev note : Entry
note = Types.comment none "ann" "note"

abbrev parse : ℕ → Parsed Entry
parse n = if nat_beq n 9 then failed "unknown variant" else parsed note

abbrev payloads : List ℕ
payloads = 4 ∷ 9 ∷ 5 ∷ []

abbrev events : List (ℕ × ℕ)
events = (2, 5) ∷ (1, 9) ∷ (0, 4) ∷ (1, 9) ∷ []

run_complete_example :
    let b = run parse (EntryBuffer.new "ann") events in
    (b.next_index ≡ 3) × (b.engine.log ≡ note ∷ note ∷ [])
run_complete_example =
    run_complete parse payloads "ann" events (omega arith) (refl, (refl, (refl, (refl, tt))))
      (λ i h. ground arith)

abbrev rain : DraftEntry
rain = record { id = 0; entry = claim "rain" Types.fact none }

abbrev rain_supports : DraftEntry
rain_supports = record { id = 1; entry = relation (draft 0) (committed "plan") Types.supports }

abbrev remark : DraftEntry
remark = record { id = 0; entry = comment none "remark" }

abbrev with_drafts : List DraftEntry → EntryBuffer ℕ
with_drafts drafts = record (EntryBuffer.new "ann") {
  engine = record (Engine.new "ann") { drafts = drafts; next_draft_id = 2 };
}

abbrev to_number : Entry → Parsed ℕ
to_number entry = parsed 4

abbrev fresh : ℕ → ClaimId
fresh n = "fresh"

abbrev pending_on : List ℕ → List ℕ → PendingSubmission ℕ
pending_on draft_ids numbers = record { draft_ids = draft_ids; payloads = numbers; next_entry = 0 }

-- A claim and a relation of it, submitted together, cannot be removed in their order.
finish_submission-referenced_example :
    finish_submission (record (with_drafts (rain ∷ rain_supports ∷ [])) {
      pending_submission = some (pending_on (0 ∷ 1 ∷ []) (4 ∷ 4 ∷ []));
    })
    ≡ (
      with_drafts (rain ∷ rain_supports ∷ []),
      EntryBuffer.err (engine_error (draft_referenced 0 1)),
    )
unfolding begin_submission submission_bundle get contains_key update draft_references_draft
finish_submission-referenced_example =
    finish_submission-referenced to_number (with_drafts (rain ∷ rain_supports ∷ [])) fresh
      (record (with_drafts (rain ∷ rain_supports ∷ [])) {
        pending_submission = some (pending_on (0 ∷ 1 ∷ []) (4 ∷ 4 ∷ []));
      })
      (pending_on (0 ∷ 1 ∷ []) (4 ∷ 4 ∷ [])) rain rain_supports (rain_supports ∷ []) refl refl refl
      refl

finish_submission-clears_example :
    finish_submission (record (with_drafts (remark ∷ [])) {
      pending_submission = some (pending_on (0 ∷ []) (4 ∷ []));
    })
    ≡ (with_drafts [], EntryBuffer.ok true)
unfolding begin_submission submission_bundle draft_references_draft
finish_submission-clears_example =
    finish_submission-clears to_number (with_drafts (remark ∷ [])) fresh
      (record (with_drafts (remark ∷ [])) {
        pending_submission = some (pending_on (0 ∷ []) (4 ∷ []));
      })
      (pending_on (0 ∷ []) (4 ∷ [])) refl ((λ r. refl), tt)

abbrev rain_engine : ConsensusEngine
rain_engine = record (Engine.new "ann") { drafts = rain ∷ []; next_draft_id = 1 }

rain_named :
    (k : ℕ)
    → drafts_claim rain_engine.drafts k ≡ true
    → get (assign_claim_ids (λ n. "draft-0") 0 rain_engine.drafts []) k
      ≡ some (draft_claim_preview_id k)
unfolding assign_claim_ids get contains_key update draft_claim_preview_id decimal
rain_named k h =
    let e : 0 ≡ k = ground arith in
    subst
      (λ j.
        get (assign_claim_ids (λ n. "draft-0") 0 rain_engine.drafts []) j
        ≡ some (draft_claim_preview_id j))
      e refl

submission_bundle-preview_example :
    submission_bundle rain_engine (λ n. "draft-0")
    ≡ and_then (materialize_drafts_for_preview rain_engine.drafts "ann") (λ entries.
      Drafts.ok (record {
        draft_ids = 0 ∷ [];
        entries = entries;
        claim_id_map = record { draft_id = 0; final_id = "draft-0" } ∷ [];
      }))
unfolding assign_claim_ids contains_key update
submission_bundle-preview_example =
    submission_bundle-preview rain_engine (λ n. "draft-0") rain_named
