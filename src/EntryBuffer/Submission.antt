-- ===== src/EntryBuffer/Submission.antt =====
-- Submissions of entry_buffer.rs, from their start to the removal of the drafts.
use prosthetic_conscience.Prelude.{
  ℕ, ◌≡◌, refl, true, false, List, [], ◌∷◌, none, some, nat_beq, nat_eq, is_empty, arith, inl, inr,
  Bool-cases,
}
use prosthetic_conscience.Json.{Parsed, parsed, failed}
use prosthetic_conscience.Types.{ClaimId, Entry}
use prosthetic_conscience.Drafts.{
  DraftEntry, Result-cases, draft_referenced, find_draft, is_claim, draft_references_draft,
  remove_first, referencing, draft_not_found,
}
use prosthetic_conscience.Drafts
use prosthetic_conscience.Drafts.References.{AllDrafts}
use prosthetic_conscience.Engine.{
  ConsensusEngine, SubmissionBundle, submission_bundle, and_then, ids,
}
use prosthetic_conscience.Engine
use prosthetic_conscience.Engine.Drafting.{remove_draft}
use prosthetic_conscience.EntryBuffer.{
  EntryBuffer, PendingSubmission, ok, err, engine_error, begun, begin_submission, remove_drafts,
  finish_submission,
}

assembled-ids :
    (drafts : List DraftEntry) (m : List Engine.ClaimIdMapping) (r : Drafts.Result (List Entry))
    (bundle : SubmissionBundle)
    → and_then r (λ entries.
      Drafts.ok (record { draft_ids = ids drafts; entries = entries; claim_id_map = m }))
      ≡ Drafts.ok bundle
    → bundle.draft_ids ≡ ids drafts
assembled-ids drafts m (Drafts.ok entries) bundle h = cc
assembled-ids drafts m (Drafts.err error) bundle h = cc

-- A bundle has the numbers of the drafts.
bundle-ids :
    (engine : ConsensusEngine) (fresh : ℕ → ClaimId) (bundle : SubmissionBundle)
    → submission_bundle engine fresh ≡ Drafts.ok bundle
    → bundle.draft_ids ≡ ids engine.drafts
unfolding submission_bundle
bundle-ids engine fresh bundle h = assembled-ids engine.drafts _ _ bundle h

-- No draft refers to a draft.
abbrev pub AreIndependent : List DraftEntry → Type 0
AreIndependent drafts = AllDrafts (λ d. (r : ℕ) → draft_references_draft d.entry r ≡ false) drafts

unreferenced :
    (drafts : List DraftEntry) (draft_id : ℕ)
    → AreIndependent drafts
    → referencing drafts draft_id ≡ none
unreferenced [] draft_id a = refl
unreferenced (d ∷ drafts) draft_id a =
    ground (arith, a.0 draft_id, unreferenced drafts draft_id a.1)

-- The first draft can be removed if no other refers to it.
remove_draft-first :
    (engine : ConsensusEngine) (d : DraftEntry) (drafts : List DraftEntry)
    → referencing (d ∷ drafts) d.id ≡ none
    → remove_draft (record engine { drafts = d ∷ drafts }) d.id
      ≡ Drafts.ok (record engine { drafts = drafts })
unfolding remove_draft remove_first
remove_draft-first engine d drafts f =
    let e : nat_beq d.id d.id ≡ true = ground arith in
    elim (Bool-cases (is_claim d.entry)) [
      | inl h ↦ rw (remove_draft, find_draft, e, h, f, remove_first, e) refl
      | inr h ↦ rw (remove_draft, find_draft, e, h, remove_first, e) refl
    ]

-- The first draft cannot be removed if it is a claim that another draft refers to.
remove_draft-referenced :
    (engine : ConsensusEngine) (d other : DraftEntry) (drafts : List DraftEntry)
    → is_claim d.entry ≡ true
    → referencing (d ∷ drafts) d.id ≡ some other
    → remove_draft (record engine { drafts = d ∷ drafts }) d.id
      ≡ Drafts.err (draft_referenced d.id other.id)
unfolding remove_draft
remove_draft-referenced engine d other drafts h f =
    let e : nat_beq d.id d.id ≡ true = ground arith in rw (remove_draft, find_draft, e, h, f) refl

remove_drafts-ids :
    (engine : ConsensusEngine) (drafts : List DraftEntry)
    → AreIndependent drafts
    → remove_drafts (record engine { drafts = drafts }) (ids drafts)
      ≡ (record engine { drafts = [] }, none)
unfolding remove_drafts
remove_drafts-ids engine [] a = refl
remove_drafts-ids engine (d ∷ drafts) a =
    rw (remove_drafts, remove_draft-first engine d drafts (unreferenced (d ∷ drafts) d.id a))
      (remove_drafts-ids engine drafts a.1)

module _ {Value : Type 0} where
  -- What a submission that has begun leaves in the buffer.
  abbrev HasBegun : EntryBuffer Value → EntryBuffer Value → PendingSubmission Value → Type 0
  HasBegun buffer next pending =
      (next ≡ record buffer { pending_submission = some pending })
      × (pending.draft_ids ≡ ids buffer.engine.drafts)
      × (pending.next_entry ≡ 0)

  begun-HasBegun :
      (buffer next : EntryBuffer Value) (draft_ids : List ℕ) (r : Parsed (List Value))
      (pending : PendingSubmission Value)
      → draft_ids ≡ ids buffer.engine.drafts
      → begun buffer draft_ids r ≡ (next, ok (some pending))
      → HasBegun buffer next pending
  begun-HasBegun buffer next draft_ids (parsed payloads) pending e h = (cc, cc, cc)
  begun-HasBegun buffer next draft_ids (failed error) pending e h = absurd (cc)

  begin-HasBegun :
      (to_value : Entry → Parsed Value) (buffer : EntryBuffer Value) (fresh : ℕ → ClaimId)
      (next : EntryBuffer Value) (pending : PendingSubmission Value)
      → begin_submission to_value buffer fresh ≡ (next, ok (some pending))
      → HasBegun buffer next pending
  unfolding begin_submission
  begin-HasBegun to_value buffer fresh next pending h =
      elim (Result-cases (submission_bundle buffer.engine fresh)) [
        | inr (error, g) ↦ absurd (cc (rw (begin_submission, g) at h))
        | inl (bundle, g) ↦ elim (Bool-cases (is_empty bundle.entries)) [
          | inl k ↦ absurd (cc (rw (begin_submission, g, k) at h))
          | inr k ↦
              begun-HasBegun buffer next bundle.draft_ids _ pending
                (bundle-ids buffer.engine fresh bundle g) (rw (begin_submission, g, k) at h)
        ]
      ]

  -- If a submission begins and the first draft is a claim that another draft refers to, then
  -- finishing the submission fails with the error that names the two drafts; the drafts all stay,
  -- and the submission is no longer pending.
  pub finish_submission-referenced :
      (to_value : Entry → Parsed Value) (buffer : EntryBuffer Value) (fresh : ℕ → ClaimId)
      (next : EntryBuffer Value) (pending : PendingSubmission Value) (d other : DraftEntry)
      (drafts : List DraftEntry)
      → begin_submission to_value buffer fresh ≡ (next, ok (some pending))
      → buffer.engine.drafts ≡ d ∷ drafts
      → is_claim d.entry ≡ true
      → referencing buffer.engine.drafts d.id ≡ some other
      → finish_submission next ≡ (
        record buffer { pending_submission = none },
        err (engine_error (draft_referenced d.id other.id)),
      )
  unfolding finish_submission remove_drafts
  finish_submission-referenced to_value buffer fresh next pending d other drafts h e c f =
      let (n, i, z) = begin-HasBegun to_value buffer fresh next pending h in
      let stuck = remove_draft-referenced buffer.engine d other drafts c (rw e at f) in
      rw (n, i, e, remove_drafts, stuck) refl

  -- If a submission begins and no draft refers to a draft, then finishing the submission
  -- succeeds, removes every draft and changes nothing else of the buffer but that no submission
  -- is pending.
  pub finish_submission-clears :
      (to_value : Entry → Parsed Value) (buffer : EntryBuffer Value) (fresh : ℕ → ClaimId)
      (next : EntryBuffer Value) (pending : PendingSubmission Value)
      → begin_submission to_value buffer fresh ≡ (next, ok (some pending))
      → AreIndependent buffer.engine.drafts
      → finish_submission next ≡ (
        record buffer { engine = record buffer.engine { drafts = [] }; pending_submission = none },
        ok true,
      )
  unfolding finish_submission
  finish_submission-clears to_value buffer fresh next pending h a =
      let (n, i, z) = begin-HasBegun to_value buffer fresh next pending h in
      rw (n, i, remove_drafts-ids buffer.engine buffer.engine.drafts a) refl
