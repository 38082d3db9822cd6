-- ===== src/Engine/Submission.antt =====
-- Submissions of engine.rs: how the references of drafts are resolved.
use prosthetic_conscience.Prelude.{
  ℕ, suc, ◌≡◌, refl, Bool, true, not, ◌&&◌, ◌||◌, List, [], ◌∷◌, Option, none, some, nat_beq, any,
  arith, nat_eq, Bool-cases, Option-cases, inl, inr, length, get_of_is_some, ap, suc,
}
use prosthetic_conscience.Map.{
  Map, get, contains_key, update, contains_key-update, contains_key-get,
}
use prosthetic_conscience.Types
use prosthetic_conscience.Types.{ClaimId, Entry}
use prosthetic_conscience.Drafts.{
  ClaimRef, committed, draft, DraftContent, claim, relation, stance, resolve, comment, DraftEntry,
  Result, ok, find_draft, is_claim, draft_references_draft, refers_to, optionally_refers_to,
}
use prosthetic_conscience.Drafts.References.{AllDrafts, targets_claim}
use prosthetic_conscience.Drafts.Closed.{AreResolved}
use prosthetic_conscience.Engine.{
  ConsensusEngine, SubmissionBundle, validate_claim_ref, own_claim_id,
  resolve_claim_ref_for_submission, transpose, materialize_draft, materialize_draft_for_submission,
  assign_claim_ids, collect, ids, sorted_mappings, submission_bundle,
}

-- The operation succeeds.
abbrev pub Succeeds : {A : Type 0} → Result A → Type 0
Succeeds {A} r = (a : A) × (r ≡ ok a)

abbrev pub drafts_claim : List DraftEntry → ℕ → Bool
drafts_claim drafts k = any (λ d. is_claim d.entry && nat_beq d.id k) drafts

contains_key-assign :
    (fresh : ℕ → ClaimId) (n : ℕ) (drafts : List DraftEntry) (m : Map ℕ ClaimId) (k : ℕ)
    → contains_key (assign_claim_ids fresh n drafts m) k
      ≡ (contains_key m k || drafts_claim drafts k)
unfolding assign_claim_ids
contains_key-assign fresh n [] m k = ground arith
contains_key-assign fresh n (d ∷ drafts) m k =
    elim (Bool-cases (is_claim d.entry && not (contains_key m d.id))) [
      | inl h ↦ rw h (
          ground (
            arith,
            contains_key-assign fresh (suc n) drafts (update m d.id (fresh n)) k,
            contains_key-update m d.id k (fresh n),
          ))
      | inr h ↦ rw h (ground (arith, contains_key-assign fresh n drafts m k))
    ]

pub targets_claim-drafts_claim :
    (drafts : List DraftEntry) (r : ℕ)
    → targets_claim drafts r ≡ true
    → drafts_claim drafts r ≡ true
targets_claim-drafts_claim [] r h = cc
targets_claim-drafts_claim (d ∷ drafts) r h = ground (arith, targets_claim-drafts_claim drafts r)

module _ (engine : ConsensusEngine) (m : Map ℕ ClaimId)
    (assigned : (k : ℕ) → drafts_claim engine.drafts k ≡ true → contains_key m k ≡ true) where
  own-Succeeds : (k : ℕ) → drafts_claim engine.drafts k ≡ true → Succeeds (own_claim_id m k)
  own-Succeeds k h =
      let (id, g) = get_of_is_some (get m k) (ground (arith, assigned k h, contains_key-get m k)) in
      (id, rw (g, own_claim_id) refl)

  resolve-Succeeds :
      (claim_ref : ClaimRef)
      → ((r : ℕ) → refers_to r claim_ref ≡ true → targets_claim engine.drafts r ≡ true)
      → Succeeds (resolve_claim_ref_for_submission engine m claim_ref)
  unfolding resolve_claim_ref_for_submission validate_claim_ref
  resolve-Succeeds (committed id) h = (id, refl)
  resolve-Succeeds (draft k) h =
      let t : targets_claim engine.drafts k ≡ true = h k (ground arith) in
      let (id, e) = own-Succeeds k (targets_claim-drafts_claim engine.drafts k t) in
      (
        id,
        elim (Option-cases (find_draft engine.drafts k)) [
          | inl g ↦ absurd (ground (arith, rw (targets_claim, g) at t))
          | inr (d, g) ↦
              let c : is_claim d.entry ≡ true = rw (targets_claim, g) at t in
              rw (g, c, validate_claim_ref) e
        ],
      )

  transpose-Succeeds :
      (claim_ref : Option ClaimRef)
      → ((r : ℕ) → optionally_refers_to r claim_ref ≡ true → targets_claim engine.drafts r ≡ true)
      → Succeeds (transpose (resolve_claim_ref_for_submission engine m) claim_ref)
  transpose-Succeeds none h = (none, refl)
  transpose-Succeeds (some claim_ref) h =
      let (id, e) = resolve-Succeeds claim_ref h in (some id, rw (transpose, e) refl)

  materialize-Succeeds :
      (k : ℕ) (content : DraftContent)
      → AreResolved engine.drafts content
      → (is_claim content ≡ true → drafts_claim engine.drafts k ≡ true)
      → Succeeds (materialize_draft_for_submission engine m (record { id = k; entry = content }))
  unfolding materialize_draft_for_submission materialize_draft draft_references_draft
  materialize-Succeeds k (claim body kind parent) h own =
      let (claim_id, e) = own-Succeeds k (own refl) in
      let (parent_id, f) = transpose-Succeeds parent h in
      (Types.claim claim_id engine.draft_author body kind parent_id, rw (e, f) refl)
  materialize-Succeeds k (relation source target kind) h own =
      let (source_id, e) = resolve-Succeeds source (λ r q. h r (ground arith)) in
      let (target_id, f) = resolve-Succeeds target (λ r q. h r (ground arith)) in
      (Types.relation source_id target_id kind engine.draft_author, rw (e, f) refl)
  materialize-Succeeds k (stance target position) h own =
      let (target_id, e) = resolve-Succeeds target h in
      (Types.stance target_id engine.draft_author position, rw e refl)
  materialize-Succeeds k (resolve claim_ref outcome) h own =
      let (claim_id, e) = resolve-Succeeds claim_ref h in
      (Types.resolve claim_id engine.draft_author outcome, rw e refl)
  materialize-Succeeds k (comment claim_ref body) h own =
      let (claim_id, e) = transpose-Succeeds claim_ref h in
      (Types.comment claim_id engine.draft_author body, rw e refl)

  collect-Succeeds :
      (drafts : List DraftEntry)
      → AllDrafts (λ d. AreResolved engine.drafts d.entry) drafts
      → ((k : ℕ) → drafts_claim drafts k ≡ true → drafts_claim engine.drafts k ≡ true)
      → (entries : List Entry) × (collect (materialize_draft_for_submission engine m) drafts
          ≡ ok entries)
        × (length entries ≡ length drafts)
  collect-Succeeds [] a h = ([], refl, refl)
  collect-Succeeds (d ∷ drafts) a h =
      let (entry, e) = materialize-Succeeds d.id d.entry a.0 (λ c. h d.id (ground arith)) in
      let (entries, es, len) = collect-Succeeds drafts a.1 (λ k q. h k (ground arith)) in
      (entry ∷ entries, rw (collect, e, es) refl, ap suc len)

-- If every reference of a draft to a draft targets a claim among the drafts, the submission
-- bundle is made without an error, with the numbers of all drafts in order and one entry for each
-- draft.
pub submission_bundle-Succeeds :
    (engine : ConsensusEngine) (fresh : ℕ → ClaimId)
    → AllDrafts (λ d. AreResolved engine.drafts d.entry) engine.drafts
    → (bundle : SubmissionBundle) × (submission_bundle engine fresh ≡ ok bundle)
      × (bundle.draft_ids ≡ ids engine.drafts)
      × (length bundle.entries ≡ length engine.drafts)
unfolding submission_bundle
submission_bundle-Succeeds engine fresh a =
    let m = assign_claim_ids fresh 0 engine.drafts [] in
    let (entries, e, len) =
      collect-Succeeds engine m
        (λ k h. ground (arith, contains_key-assign fresh 0 engine.drafts [] k)) engine.drafts a
        (λ k q. q) in
    (
      record { draft_ids = ids engine.drafts; entries = entries; claim_id_map = sorted_mappings m },
      rw (e, submission_bundle) refl,
      refl,
      len,
    )
