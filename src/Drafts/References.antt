-- ===== src/Drafts/References.antt =====
-- Lists of drafts in drafts.rs: identifiers, what is found under one, and removal.
use prosthetic_conscience.Prelude.{
  ℕ, ◌≡◌, refl, Bool, true, false, ◌||◌, List, [], ◌∷◌, ◌++◌, none, some, nat_beq, if◌then◌else◌,
  arith, contains, nat_eq, IsDistinct, is_some, Bool-cases, inl, inr,
}
use prosthetic_conscience.Drafts.{
  DraftEntry, find_draft, is_claim, draft_references_draft, remove_first, referencing,
}

abbrev pub AllDrafts : (DraftEntry → Type 0) → List DraftEntry → Type 0
AllDrafts P [] = Unit
AllDrafts P (d ∷ drafts) = P d × AllDrafts P drafts

abbrev pub ids : List DraftEntry → List ℕ
ids [] = []
ids (d ∷ drafts) = d.id ∷ ids drafts

-- The draft with an identifier is a claim.
abbrev pub targets_claim : List DraftEntry → ℕ → Bool
targets_claim drafts draft_id = elim (find_draft drafts draft_id) [
  | none ↦ false
  | some d ↦ is_claim d.entry
]

pub AllDrafts-zip :
    (P Q R : DraftEntry → Type 0) (drafts : List DraftEntry)
    → ((d : DraftEntry) → P d → Q d → R d)
    → AllDrafts P drafts
    → AllDrafts Q drafts
    → AllDrafts R drafts
AllDrafts-zip P Q R [] f a b = tt
AllDrafts-zip P Q R (d ∷ drafts) f a b = (f d a.0 b.0, AllDrafts-zip P Q R drafts f a.1 b.1)

pub AllDrafts-append :
    (P : DraftEntry → Type 0) (drafts : List DraftEntry) (d : DraftEntry)
    → AllDrafts P drafts
    → P d
    → AllDrafts P (drafts ++ d ∷ [])
AllDrafts-append P [] d a p = (p, tt)
AllDrafts-append P (x ∷ drafts) d a p = (a.0, AllDrafts-append P drafts d a.1 p)

pub AllDrafts-remove :
    (P : DraftEntry → Type 0) (drafts : List DraftEntry) (draft_id : ℕ)
    → AllDrafts P drafts
    → AllDrafts P (remove_first drafts draft_id)
unfolding remove_first
AllDrafts-remove P [] draft_id a = tt
AllDrafts-remove P (d ∷ drafts) draft_id a = elim (Bool-cases (nat_beq d.id draft_id)) [
  | inl h ↦ rw h a.1
  | inr h ↦ rw h (a.0, AllDrafts-remove P drafts draft_id a.1)
]

pub contains-ids :
    (drafts : List DraftEntry) (draft_id : ℕ)
    → contains (ids drafts) draft_id ≡ is_some (find_draft drafts draft_id)
contains-ids [] draft_id = refl
contains-ids (d ∷ drafts) draft_id = ground (arith, contains-ids drafts draft_id)

pub find-remove :
    (drafts : List DraftEntry) (draft_id r : ℕ)
    → IsDistinct (ids drafts)
    → find_draft (remove_first drafts draft_id) r
      ≡ (if nat_beq r draft_id then none else find_draft drafts r)
unfolding remove_first
find-remove [] draft_id r u = ground arith
find-remove (d ∷ drafts) draft_id r u =
    ground (arith, find-remove drafts draft_id r u.1, contains-ids drafts d.id, u.0)

pub remove-IsDistinct :
    (drafts : List DraftEntry) (draft_id : ℕ)
    → IsDistinct (ids drafts)
    → IsDistinct (ids (remove_first drafts draft_id))
unfolding remove_first
remove-IsDistinct [] draft_id u = tt
remove-IsDistinct (d ∷ drafts) draft_id u = elim (Bool-cases (nat_beq d.id draft_id)) [
  | inl h ↦ rw h u.1
  | inr h ↦ rw h (
    ground (
      arith,
      contains-ids (remove_first drafts draft_id) d.id,
      find-remove drafts draft_id d.id u.1,
      contains-ids drafts d.id,
      u.0,
    ),
    remove-IsDistinct drafts draft_id u.1,
  )
]

absent :
    (drafts : List DraftEntry) (draft_id : ℕ)
    → contains (ids drafts) draft_id ≡ false
    → AllDrafts (λ d. nat_beq d.id draft_id ≡ false) drafts
absent [] draft_id h = tt
absent (d ∷ drafts) draft_id h = (ground arith, absent drafts draft_id (ground arith))

pub removed-absent :
    (drafts : List DraftEntry) (draft_id : ℕ)
    → IsDistinct (ids drafts)
    → AllDrafts (λ d. nat_beq d.id draft_id ≡ false) (remove_first drafts draft_id)
unfolding remove_first
removed-absent [] draft_id u = tt
removed-absent (d ∷ drafts) draft_id u = elim (Bool-cases (nat_beq d.id draft_id)) [
  | inl h ↦ rw h (absent drafts draft_id (ground (arith, u.0)))
  | inr h ↦ rw h (h, removed-absent drafts draft_id u.1)
]

contains-ids_append :
    (drafts : List DraftEntry) (d : DraftEntry) (k : ℕ)
    → contains (ids (drafts ++ d ∷ [])) k ≡ (contains (ids drafts) k || nat_beq d.id k)
contains-ids_append [] d k = ground arith
contains-ids_append (x ∷ drafts) d k = ground (arith, contains-ids_append drafts d k)

pub append-IsDistinct :
    (drafts : List DraftEntry) (d : DraftEntry)
    → contains (ids drafts) d.id ≡ false
    → IsDistinct (ids drafts)
    → IsDistinct (ids (drafts ++ d ∷ []))
append-IsDistinct [] d h u = (refl, tt)
append-IsDistinct (x ∷ drafts) d h u = (
  ground (arith, contains-ids_append drafts d x.id, u.0),
  append-IsDistinct drafts d (ground arith) u.1,
)

pub targets_claim-append :
    (drafts : List DraftEntry) (d : DraftEntry) (r : ℕ)
    → targets_claim drafts r ≡ true
    → targets_claim (drafts ++ d ∷ []) r ≡ true
targets_claim-append [] d r h = cc
targets_claim-append (x ∷ drafts) d r h = ground (arith, targets_claim-append drafts d r)

-- If no other draft is found that refers to an identifier, none does.
pub referencing-none :
    (drafts : List DraftEntry) (draft_id : ℕ)
    → referencing drafts draft_id ≡ none
    → AllDrafts
        (λ d. nat_beq d.id draft_id ≡ false → draft_references_draft d.entry draft_id ≡ false)
        drafts
referencing-none [] draft_id h = tt
referencing-none (d ∷ drafts) draft_id h =
    (λ n. ground arith, referencing-none drafts draft_id (ground arith))
