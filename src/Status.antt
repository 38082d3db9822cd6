-- ===== src/Status.antt =====
-- crates/consensus/src/status.rs: what the labels and the stances say of each claim.
pub mod Computed
use prosthetic_conscience.Prelude.{
  ℕ, zero, suc, Bool, List, [], ◌∷◌, Option, none, some, String, ◌==◌, string_eq, pair_eq,
  if◌then◌else◌, is_empty, any, filterb, get_elem?,
}
use prosthetic_conscience.Map.{Map, update}
use prosthetic_conscience.Solver.{Label, «in», out, undec}
use prosthetic_conscience.Types.{ClaimId, StanceState, MaterializedState, is_negative}

pub data EpistemicStatus : Type 0 where
  established unexamined contested defeated unresolved : EpistemicStatus

unfoldable pub epistemic_status : Label → List StanceState → EpistemicStatus
epistemic_status out stances = defeated
epistemic_status undec stances = unresolved
epistemic_status «in» stances =
    if is_empty stances
    then unexamined
    else if any (λ s. is_negative s.position) stances
    then contested
    else established

-- `m.values()`.
abbrev pub values : {K V : Type 0} → Map K V → List V
values [] = []
values ((k, v) ∷ m) = v ∷ values m

abbrev pub stances_on : MaterializedState → ClaimId → List StanceState
stances_on state claim_id = filterb (λ s. s.target_id == claim_id) (values state.stances)

-- `labels.get(i).copied().unwrap_or(Label::Undec)`.
abbrev pub label_at : List Label → ℕ → Label
label_at labels i = elim (get_elem? labels i) [ none ↦ undec | some l ↦ l ]

-- The loop over the claims from number `i` on.
unfoldable pub compute_from :
    MaterializedState
    → List Label
    → ℕ
    → List ClaimId
    → Map ClaimId EpistemicStatus
    → Map ClaimId EpistemicStatus
compute_from state labels i [] result = result
compute_from state labels i (claim_id ∷ ids) result =
    compute_from state labels (suc i) ids
      (update result claim_id (epistemic_status (label_at labels i) (stances_on state claim_id)))

abbrev pub compute_all : MaterializedState → List Label → List ClaimId → Map ClaimId EpistemicStatus
compute_all state labels index_to_claim = compute_from state labels 0 index_to_claim []
