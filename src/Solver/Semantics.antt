-- ===== src/Solver/Semantics.antt =====
-- Grounded semantics as an inductive relation, and what every labelling on the way of
-- `grounded_labelling` (solver.rs) keeps.
use mathlib.Core.List.{Memᴰ}
use prosthetic_conscience.Prelude.{
  ℕ, ◌<◌, ◌≡◌, ◌≢◌, ◌∙◌, true, List, arith, all, any, set, length, length-set, nat_beq, nat_beq_iff,
  Bool-cases, inl, inr, ◌⊎◌,
}
use prosthetic_conscience.Solver.{Label, «in», out, undec, label_beq, Graph, attackers, has_label}
use prosthetic_conscience.Solver.Labels.{
  has_label-set, has_label-lt, has_label_unique, all_mem, all_of_mem, any_mem, any_of_mem,
}

-- A node is accepted if all its attackers are defeated, and defeated if one of them is accepted:
-- the least such relation.
pub data Derives (g : Graph) : ℕ → Label → Type 0 where
  accept :
      {x : ℕ}
      → x < g.node_count
      → ((a : ℕ) → Memᴰ a (attackers g x) → Derives g a out)
      → Derives g x «in»
  defeat :
      {x : ℕ}
      → x < g.node_count
      → (a : ℕ) → Memᴰ a (attackers g x)
      → Derives g a «in»
      → Derives g x out

pub record IsSound (g : Graph) (labels : List Label) : Type 0 where
  pub covers : length labels ≡ g.node_count
  pub accepted : (x : ℕ) → has_label labels «in» x ≡ true → Derives g x «in»
  pub defeated : (x : ℕ) → has_label labels out x ≡ true → Derives g x out
  pub why_in :
      (x : ℕ) → has_label labels «in» x ≡ true → all (has_label labels out) (attackers g x) ≡ true
  pub why_out :
      (x : ℕ) → has_label labels out x ≡ true → any (has_label labels «in») (attackers g x) ≡ true

module _ (labels : List Label) (y : ℕ) (open_y : has_label labels undec y ≡ true)
    (new : Label) where
  -- A write to an open node leaves the labels of the others.
  set_keeps :
      (l : Label) (a : ℕ)
      → l ≢ undec
      → has_label labels l a ≡ true
      → has_label (set labels y new) l a ≡ true
  set_keeps l a h k = elim (Bool-cases (nat_beq y a)) [
    | inl e ↦
        let same : y ≡ a = (nat_beq_iff y a).0 e in
        absurd (h (has_label_unique labels a l undec k (rw same at open_y)))
    | inr e ↦ rw (has_label-set labels y new l a (has_label-lt labels undec y open_y), e) k
  ]

  -- What a node has after the write, it had before, or it is the node written.
  set_cases :
      (l : Label) (a : ℕ)
      → has_label (set labels y new) l a ≡ true
      → ((y ≡ a) × (label_beq new l ≡ true)) ⊎ (has_label labels l a ≡ true)
  set_cases l a h =
      ground (
        arith,
        has_label-set labels y new l a (has_label-lt labels undec y open_y),
        nat_beq_iff y a,
      )

  all_keeps :
      (l : Label) (xs : List ℕ)
      → l ≢ undec
      → all (has_label labels l) xs ≡ true
      → all (has_label (set labels y new) l) xs ≡ true
  all_keeps l xs h k = all_of_mem _ xs (λ a m. set_keeps l a h (all_mem _ xs a k m))

  any_keeps :
      (l : Label) (xs : List ℕ)
      → l ≢ undec
      → any (has_label labels l) xs ≡ true
      → any (has_label (set labels y new) l) xs ≡ true
  any_keeps l xs h k = let (a, m, p) = any_mem _ xs k in any_of_mem _ xs a m (set_keeps l a h p)

in_not_undec : «in» ≢ undec
in_not_undec e = cc

out_not_undec : out ≢ undec
out_not_undec e = cc

module _ (g : Graph) (labels : List Label) (s : IsSound g labels) (y : ℕ)
    (open_y : has_label labels undec y ≡ true) where
  y-lt : y < g.node_count
  y-lt = omega (arith, has_label-lt labels undec y open_y, s.covers)

  pub set_in-IsSound :
      all (has_label labels out) (attackers g y) ≡ true → IsSound g (set labels y «in»)
  set_in-IsSound h = record {
    covers = length-set labels y «in» ∙ s.covers;
    accepted = λ x p. elim (set_cases labels y open_y «in» «in» x p) [
      | inl (same, _) ↦
          rw (← same) (accept y-lt (λ a m. s.defeated a (all_mem _ (attackers g y) a h m)))
      | inr q ↦ s.accepted x q
    ];
    defeated = λ x p. elim (set_cases labels y open_y «in» out x p) [
      | inl (_, q) ↦ absurd (ground arith)
      | inr q ↦ s.defeated x q
    ];
    why_in = λ x p. elim (set_cases labels y open_y «in» «in» x p) [
      | inl (same, _) ↦
          rw (← same) (all_keeps labels y open_y «in» out (attackers g y) out_not_undec h)
      | inr q ↦ all_keeps labels y open_y «in» out (attackers g x) out_not_undec (s.why_in x q)
    ];
    why_out = λ x p. elim (set_cases labels y open_y «in» out x p) [
      | inl (_, q) ↦ absurd (ground arith)
      | inr q ↦ any_keeps labels y open_y «in» «in» (attackers g x) in_not_undec (s.why_out x q)
    ];
  }

  pub set_out-IsSound :
      any (has_label labels «in») (attackers g y) ≡ true → IsSound g (set labels y out)
  set_out-IsSound h = record {
    covers = length-set labels y out ∙ s.covers;
    accepted = λ x p. elim (set_cases labels y open_y out «in» x p) [
      | inl (_, q) ↦ absurd (ground arith)
      | inr q ↦ s.accepted x q
    ];
    defeated = λ x p. elim (set_cases labels y open_y out out x p) [
      | inl (same, _) ↦
          let (a, m, q) = any_mem _ (attackers g y) h in
          rw (← same) (defeat y-lt a m (s.accepted a q))
      | inr q ↦ s.defeated x q
    ];
    why_in = λ x p. elim (set_cases labels y open_y out «in» x p) [
      | inl (_, q) ↦ absurd (ground arith)
      | inr q ↦ all_keeps labels y open_y out out (attackers g x) out_not_undec (s.why_in x q)
    ];
    why_out = λ x p. elim (set_cases labels y open_y out out x p) [
      | inl (same, _) ↦
          rw (← same) (any_keeps labels y open_y out «in» (attackers g y) in_not_undec h)
      | inr q ↦ any_keeps labels y open_y out «in» (attackers g x) in_not_undec (s.why_out x q)
    ];
  }
