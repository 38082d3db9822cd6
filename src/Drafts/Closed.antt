-- ===== src/Drafts/Closed.antt =====
-- References between drafts in drafts.rs, under each operation.
use prosthetic_conscience.Prelude.{
  sym, subst, ℕ, ◌+◌, ◌<◌, ◌≡◌, refl, true, false, List, [], ◌∷◌, ◌++◌, Option, none, some, nat_beq,
  arith, contains, nat_eq, IsDistinct, Bool-cases, Option-cases, inl, inr, u64_mod, add64,
  add64_lem, String,
}
use prosthetic_conscience.Types.{ClaimKind, RelationKind, Position, Outcome}
use prosthetic_conscience.Drafts.{
  ClaimRef, committed, draft, DraftContent, claim, relation, stance, resolve, comment, DraftEntry,
  EngineError, State, Result, ok, err, find_draft, is_claim, refers_to, optionally_refers_to,
  draft_references_draft, validate_claim_ref, validate_optional_claim_ref, push_draft, guarded,
  draft_claim, draft_relation, draft_stance, draft_resolve, draft_comment, remove_first,
  referencing, remove_draft,
}
use prosthetic_conscience.Drafts.References.{
  AllDrafts, AllDrafts-zip, AllDrafts-append, AllDrafts-remove, ids, targets_claim, find-remove,
  remove-IsDistinct, removed-absent, append-IsDistinct, targets_claim-append, referencing-none,
}

-- Every reference of `content` to a draft targets a claim.
abbrev pub AreResolved : List DraftEntry → DraftContent → Type 0
AreResolved drafts content =
    (r : ℕ) → draft_references_draft content r ≡ true → targets_claim drafts r ≡ true

-- Identifiers are below the next one and stand once, and references to drafts target claims.
pub record IsClosed (s : State) : Type 0 where
  pub below : AllDrafts (λ d. d.id < s.next_draft_id) s.drafts
  pub distinct : IsDistinct (ids s.drafts)
  pub resolved : AllDrafts (λ d. AreResolved s.drafts d.entry) s.drafts

below-absent :
    (drafts : List DraftEntry) (n : ℕ)
    → AllDrafts (λ d. d.id < n) drafts
    → contains (ids drafts) n ≡ false
below-absent [] n a = refl
below-absent (d ∷ drafts) n a = ground (arith, a.0, below-absent drafts n a.1)

AllDrafts-map :
    (P Q : DraftEntry → Type 0) (drafts : List DraftEntry)
    → ((d : DraftEntry) → P d → Q d)
    → AllDrafts P drafts
    → AllDrafts Q drafts
AllDrafts-map P Q drafts f a = AllDrafts-zip P P Q drafts (λ d p _. f d p) a a

push-IsClosed :
    (s : State) (content : DraftContent)
    → s.next_draft_id + 1 < u64_mod
    → IsClosed s
    → AreResolved s.drafts content
    → IsClosed (push_draft s content).0
unfolding push_draft
push-IsClosed s content room c k =
    let e = add64_lem s.next_draft_id 1 room in
    let d : DraftEntry = record { id = s.next_draft_id; entry = content } in
    record {
      below =
          AllDrafts-append (λ x. x.id < add64 s.next_draft_id 1) s.drafts d
            (AllDrafts-map (λ x. x.id < s.next_draft_id) (λ x. x.id < add64 s.next_draft_id 1)
              s.drafts (λ x h. omega (arith, h, e)) c.below)
            (omega (arith, e));
      distinct =
          append-IsDistinct s.drafts d (below-absent s.drafts s.next_draft_id c.below) c.distinct;
      resolved =
          AllDrafts-append (λ x. AreResolved (s.drafts ++ d ∷ []) x.entry) s.drafts d
            (AllDrafts-map (λ x. AreResolved s.drafts x.entry)
              (λ x. AreResolved (s.drafts ++ d ∷ []) x.entry) s.drafts
              (λ x h r q. targets_claim-append s.drafts d r (h r q)) c.resolved)
            (λ r q. targets_claim-append s.drafts d r (k r q));
    }

validated :
    (s : State) (claim_ref : ClaimRef) (r : ℕ)
    → validate_claim_ref s claim_ref ≡ none
    → refers_to r claim_ref ≡ true
    → targets_claim s.drafts r ≡ true
unfolding validate_claim_ref
validated s (committed id) r v q = cc
validated s (draft id) r v q = elim (Option-cases (find_draft s.drafts id)) [
  | inl g ↦ absurd (ground (arith, rw (g, validate_claim_ref) at v))
  | inr (d, g) ↦ elim (Bool-cases (is_claim d.entry)) [
    | inl h ↦ let same : id ≡ r = ground arith in rw (sym same) (rw (g, targets_claim) h)
    | inr h ↦ absurd (ground (arith, rw (g, h, validate_claim_ref) at v))
  ]
]

optionally_validated :
    (s : State) (claim_ref : Option ClaimRef) (r : ℕ)
    → validate_optional_claim_ref s claim_ref ≡ none
    → optionally_refers_to r claim_ref ≡ true
    → targets_claim s.drafts r ≡ true
unfolding validate_optional_claim_ref
optionally_validated s none r v q = cc
optionally_validated s (some claim_ref) r v q = validated s claim_ref r v q

-- What an operation returns, if it returns a state, is closed.
abbrev pub YieldsClosed : {A : Type 0} → (A → State) → Result A → Type 0
YieldsClosed f (ok a) = IsClosed (f a)
YieldsClosed f (err error) = Unit

guarded-YieldsClosed :
    {A : Type 0} (f : A → State) (check : Option EngineError) (rest : Result A)
    → (check ≡ none → YieldsClosed f rest)
    → YieldsClosed f (guarded check rest)
guarded-YieldsClosed f none rest h = h refl
guarded-YieldsClosed f (some error) rest h = tt

module _ (s : State) (room : s.next_draft_id + 1 < u64_mod) (c : IsClosed s) where
  pub claim-YieldsClosed :
      (body : String) (kind : ClaimKind) (parent : Option ClaimRef)
      → YieldsClosed (λ p. p.0) (draft_claim s body kind parent)
  unfolding draft_claim draft_references_draft
  claim-YieldsClosed body kind parent =
      guarded-YieldsClosed (λ p. p.0) (validate_optional_claim_ref s parent) _
        (λ v.
          push-IsClosed s (claim body kind parent) room c
            (λ r q. optionally_validated s parent r v q))

  pub relation-YieldsClosed :
      (source target : ClaimRef) (kind : RelationKind)
      → YieldsClosed (λ p. p.0) (draft_relation s source target kind)
  unfolding draft_relation draft_references_draft
  relation-YieldsClosed source target kind =
      guarded-YieldsClosed (λ p. p.0) (validate_claim_ref s source) _
        (λ v.
          guarded-YieldsClosed (λ p. p.0) (validate_claim_ref s target) _
            (λ w. push-IsClosed s (relation source target kind) room c (λ r q.
              elim (Bool-cases (refers_to r source)) [
                | inl h ↦ validated s source r v h
                | inr h ↦ validated s target r w (ground arith)
              ])))

  pub stance-YieldsClosed :
      (target : ClaimRef) (position : Position)
      → YieldsClosed (λ p. p.0) (draft_stance s target position)
  unfolding draft_stance draft_references_draft
  stance-YieldsClosed target position =
      guarded-YieldsClosed (λ p. p.0) (validate_claim_ref s target) _
        (λ v. push-IsClosed s (stance target position) room c (λ r q. validated s target r v q))

  pub resolve-YieldsClosed :
      (claim_ref : ClaimRef) (outcome : Outcome)
      → YieldsClosed (λ p. p.0) (draft_resolve s claim_ref outcome)
  unfolding draft_resolve draft_references_draft
  resolve-YieldsClosed claim_ref outcome =
      guarded-YieldsClosed (λ p. p.0) (validate_claim_ref s claim_ref) _
        (λ v.
          push-IsClosed s (resolve claim_ref outcome) room c (λ r q. validated s claim_ref r v q))

  pub comment-YieldsClosed :
      (body : String) (claim_ref : Option ClaimRef)
      → YieldsClosed (λ p. p.0) (draft_comment s body claim_ref)
  unfolding draft_comment draft_references_draft
  comment-YieldsClosed body claim_ref =
      guarded-YieldsClosed (λ p. p.0) (validate_optional_claim_ref s claim_ref) _
        (λ v.
          push-IsClosed s (comment claim_ref body) room c
            (λ r q. optionally_validated s claim_ref r v q))

  -- If the drafts are closed and the next number is not the last machine word, each of the five
  -- kinds of drafting either fails or returns a state that is closed.
  pub draft-YieldsClosed :
      (body : String) (kind : ClaimKind) (relation_kind : RelationKind) (position : Position)
      (outcome : Outcome) (a b : ClaimRef) (o : Option ClaimRef)
      → YieldsClosed (λ p. p.0) (draft_claim s body kind o)
        × YieldsClosed (λ p. p.0) (draft_relation s a b relation_kind)
        × YieldsClosed (λ p. p.0) (draft_stance s a position)
        × YieldsClosed (λ p. p.0) (draft_resolve s a outcome)
        × YieldsClosed (λ p. p.0) (draft_comment s body o)
  draft-YieldsClosed body kind relation_kind position outcome a b o = (
    claim-YieldsClosed body kind o,
    relation-YieldsClosed a b relation_kind,
    stance-YieldsClosed a position,
    resolve-YieldsClosed a outcome,
    comment-YieldsClosed body o,
  )

module _ (s : State) (c : IsClosed s) (draft_id : ℕ) where
  still_resolved :
      (d : DraftEntry) (r : ℕ)
      → draft_references_draft d.entry draft_id ≡ false
      → targets_claim s.drafts r ≡ true
      → draft_references_draft d.entry r ≡ true
      → targets_claim (remove_first s.drafts draft_id) r ≡ true
  still_resolved d r f k q = elim (Bool-cases (nat_beq r draft_id)) [
    | inl e ↦
        let same : r ≡ draft_id = ground arith in
        absurd (ground (arith, subst (λ i. draft_references_draft d.entry i ≡ true) same q))
    | inr e ↦ rw (targets_claim, find-remove s.drafts draft_id r c.distinct, e) k
  ]

  remove-IsClosed :
      AllDrafts
        (λ d. nat_beq d.id draft_id ≡ false → draft_references_draft d.entry draft_id ≡ false)
        s.drafts
      → IsClosed (record s { drafts = remove_first s.drafts draft_id })
  remove-IsClosed free =
      let left = remove_first s.drafts draft_id in
      record {
        below = AllDrafts-remove (λ d. d.id < s.next_draft_id) s.drafts draft_id c.below;
        distinct = remove-IsDistinct s.drafts draft_id c.distinct;
        resolved =
            AllDrafts-zip
              (λ d.
                (nat_beq d.id draft_id ≡ false → draft_references_draft d.entry draft_id ≡ false)
                × AreResolved s.drafts d.entry)
              (λ d. nat_beq d.id draft_id ≡ false) (λ d. AreResolved left d.entry) left
              (λ d (f, k) n r q. still_resolved d r (f n) (k r q) q)
              (AllDrafts-remove _ s.drafts draft_id
                (AllDrafts-zip _ _ _ s.drafts (λ d f k. (f, k)) free c.resolved))
              (removed-absent s.drafts draft_id c.distinct);
      }

  -- A draft that is not a claim is not referred to.
  free_of_references :
      (d : DraftEntry)
      → find_draft s.drafts draft_id ≡ some d
      → is_claim d.entry ≡ false
      → AllDrafts
          (λ x. nat_beq x.id draft_id ≡ false → draft_references_draft x.entry draft_id ≡ false)
          s.drafts
  free_of_references d g h =
      AllDrafts-map _ _ s.drafts
        (λ x k n. elim (Bool-cases (draft_references_draft x.entry draft_id)) [
          | inl q ↦ absurd (ground (arith, rw (targets_claim, g) at (k draft_id q)))
          | inr q ↦ q
        ])
        c.resolved

  -- If the drafts are closed, the removal of a draft either fails or returns a state that is
  -- closed.
  pub remove-YieldsClosed : YieldsClosed (λ x. x) (remove_draft s draft_id)
  unfolding remove_draft
  remove-YieldsClosed = elim (Option-cases (find_draft s.drafts draft_id)) [
    | inl g ↦ rw (g, remove_draft) tt
    | inr (d, g) ↦ elim (Bool-cases (is_claim d.entry)) [
      | inr h ↦ rw (g, h, remove_draft) (remove-IsClosed (free_of_references d g h))
      | inl h ↦ elim (Option-cases (referencing s.drafts draft_id)) [
        | inl f ↦
            rw (g, h, f, remove_draft) (remove-IsClosed (referencing-none s.drafts draft_id f))
        | inr (other, f) ↦ rw (g, h, f, remove_draft) tt
      ]
    ]
  ]
