-- ===== src/Status/Computed.antt =====
-- The statuses of status.rs for the graph of a log and its grounded labelling.
use native.Mathlib.Nat.{zero-add}
use prosthetic_conscience.Prelude.{
  sym, ap, ℕ, zero, suc, ◌+◌, ◌<◌, ◌≡◌, ◌≢◌, ◌↔◌, refl, true, List, [], ◌∷◌, Option, some,
  string_eq, arith, length, get_elem?, u32_mod, ◌∙◌, eq_iff, Bool-cases, Option-cases, inl, inr,
  is_empty, any,
}
use prosthetic_conscience.Map.{Map, get, update, get-update}
use prosthetic_conscience.Solver.{Label, «in», out, undec, has_label, grounded_labelling}
use prosthetic_conscience.Solver.Semantics.{Derives}
use prosthetic_conscience.Solver.Grounded.{labelled-iff-Derives}
use prosthetic_conscience.Types.{ClaimId, Entry, StanceState, MaterializedState, is_negative}
use prosthetic_conscience.Reducer.{replay, to_graph}
use prosthetic_conscience.Reducer.Extraction.{to_graph-replay}
use prosthetic_conscience.Status.{
  EpistemicStatus, epistemic_status, established, unexamined, contested, defeated, unresolved,
  stances_on, label_at, compute_from, compute_all,
}

suc_ne_zero : (j : ℕ) → suc j ≢ 0
suc_ne_zero j e = omega (arith, e)

module _ (state : MaterializedState) (labels : List Label) where
  compute_from-absent :
      (i : ℕ) (ids : List ClaimId) (result : Map ClaimId EpistemicStatus) (id : ClaimId)
      → ((j : ℕ) → get_elem? ids j ≢ some id)
      → get (compute_from state labels i ids result) id ≡ get result id
  unfolding compute_from
  compute_from-absent i [] result id h = refl
  compute_from-absent i (claim_id ∷ ids) result id h =
      let s = epistemic_status (label_at labels i) (stances_on state claim_id) in
      compute_from-absent (suc i) ids (update result claim_id s) id (λ j. h (suc j))
      ∙ ground (arith, get-update result claim_id id s, eq_iff claim_id id, h 0)

  compute_from-at :
      (i : ℕ) (ids : List ClaimId) (result : Map ClaimId EpistemicStatus) (id : ClaimId) (j : ℕ)
      → get_elem? ids j ≡ some id
      → ((k : ℕ) → get_elem? ids k ≡ some id → k ≡ j)
      → get (compute_from state labels i ids result) id
        ≡ some (epistemic_status (label_at labels (i + j)) (stances_on state id))
  unfolding compute_from
  compute_from-at i [] result id j g only = cc
  compute_from-at i (claim_id ∷ ids) result id zero g only =
      let s = epistemic_status (label_at labels i) (stances_on state claim_id) in
      let same : claim_id ≡ id = ground arith in
      let here : i + 0 ≡ i = omega arith in
      compute_from-absent (suc i) ids (update result claim_id s) id
        (λ j h. suc_ne_zero j (only (suc j) h))
      ∙ get-update result claim_id id s
      ∙ rw (same, here) (rw ((eq_iff id id).1 refl) refl)
  compute_from-at i (claim_id ∷ ids) result id (suc j) g only =
      let s = epistemic_status (label_at labels i) (stances_on state claim_id) in
      let shift : i + suc j ≡ suc i + j = omega arith in
      rw shift (
        compute_from-at (suc i) ids (update result claim_id s) id j g
          (λ k h. omega (arith, only (suc k) h)))

-- The label of a claim can be read off its status.
abbrev label_of : EpistemicStatus → Label
label_of established = «in»
label_of unexamined = «in»
label_of contested = «in»
label_of defeated = out
label_of unresolved = undec

label_of-epistemic_status :
    (l : Label) (stances : List StanceState) → label_of (epistemic_status l stances) ≡ l
unfolding epistemic_status
label_of-epistemic_status «in» stances = elim (Bool-cases (is_empty stances)) [
  | inl h ↦ rw h refl
  | inr h ↦ elim (Bool-cases (any (λ s. is_negative s.position) stances)) [
    | inl k ↦ rw (h, k) refl
    | inr k ↦ rw (h, k) refl
  ]
]
label_of-epistemic_status out stances = refl
label_of-epistemic_status undec stances = refl

has_label-label_at :
    (labels : List Label) (l : Label) (i : ℕ)
    → l ≢ undec
    → (has_label labels l i ≡ true) ↔ (label_at labels i ≡ l)
unfolding has_label
has_label-label_at labels l i n = elim (Option-cases (get_elem? labels i)) [
  | inl g ↦ (λ h. ground arith, λ h. ground arith)
  | inr (k, g) ↦ (λ h. ground arith, λ h. ground arith)
]

abbrev pub status_of : List Entry → ClaimId → Option EpistemicStatus
status_of entries id =
    let state = replay entries in
    let (g, ids) = to_graph state in get (compute_all state (grounded_labelling g) ids) id

some_inj : {a b : EpistemicStatus} → some a ≡ some b → a ≡ b
some_inj h = ground arith

status_of_lem :
    (entries : List Entry) (id : ClaimId) (i : ℕ)
    → length entries < u32_mod
    → get_elem? (to_graph (replay entries)).1 i ≡ some id
    → status_of entries id
      ≡ some (
          epistemic_status
            (label_at (grounded_labelling (to_graph (replay entries)).0) i)
            (stances_on (replay entries) id))
status_of_lem entries id i room g =
    let (g', ids) = to_graph (replay entries) in
    let state = replay entries in
    let labels = grounded_labelling g' in
    let found =
      compute_from-at state labels 0 ids [] id i g
        (λ k h. (to_graph-replay entries room).distinct id k i h g) in
    rw (zero-add i) at found

-- For a log of fewer than 2 ^ 32 entries, the claim with number i of its graph has the status
-- that goes with the label in or out, and with the stances on the claim, exactly if the grounded
-- semantics derives that label for it in the graph.
pub status_of-iff-Derives :
    (entries : List Entry) (id : ClaimId) (i : ℕ) (l : Label)
    → length entries < u32_mod
    → l ≢ undec
    → get_elem? (to_graph (replay entries)).1 i ≡ some id
    → (status_of entries id ≡ some (epistemic_status l (stances_on (replay entries) id)))
      ↔ Derives (to_graph (replay entries)).0 i l
status_of-iff-Derives entries id i l room n g =
    let known = status_of_lem entries id i room g in
    let (g', ids) = to_graph (replay entries) in
    let labels = grounded_labelling g' in
    let stances = stances_on (replay entries) id in
    let label = has_label-label_at labels l i n in
    let derives = labelled-iff-Derives g' i l n in
    (
      λ h.
          let same : epistemic_status (label_at labels i) stances ≡ epistemic_status l stances =
            some_inj (sym known ∙ h) in
          derives.0 (
            label.1 (
              sym (label_of-epistemic_status (label_at labels i) stances)
              ∙ ap label_of same
              ∙ label_of-epistemic_status l stances)),
      λ d. known ∙ ap (λ k. some (epistemic_status k stances)) (label.0 (derives.1 d)),
    )
