-- ===== src/Solver/Termination.antt =====
-- The rounds of the loop of `grounded_labelling` (solver.rs), by the number of nodes that have no
-- label yet.
use prosthetic_conscience.Prelude.{
  ℕ, zero, suc, ◌<◌, ◌≤◌, ◌≡◌, refl, Bool, true, false, List, [], ◌∷◌, Option, none, some, arith,
  set, replicate, length, length-set, length-replicate, if◌then◌else◌, Bool-cases, inl, inr,
}
use prosthetic_conscience.Solver.{
  Label, «in», out, undec, label_beq, Graph, has_label, visit, sweep, label_loop, from_loop,
  grounded_labelling,
}

-- The nodes that have no label yet.
abbrev pub open_nodes : List Label → ℕ
open_nodes [] = 0
open_nodes (l ∷ ls) = let rest = open_nodes ls in if label_beq l undec then suc rest else rest

open_nodes-le : (labels : List Label) → open_nodes labels ≤ length labels
open_nodes-le [] = omega arith
open_nodes-le (l ∷ ls) = ground (arith, open_nodes-le ls)

open_nodes-set :
    (labels : List Label) (x : ℕ) (l : Label)
    → has_label labels undec x ≡ true
    → label_beq l undec ≡ false
    → suc (open_nodes (set labels x l)) ≡ open_nodes labels
unfolding has_label
open_nodes-set [] x l h k = cc
open_nodes-set (m ∷ ls) zero l h k = ground arith
open_nodes-set (m ∷ ls) (suc x) l h k = ground (arith, open_nodes-set ls x l h k)

-- A visit that sets `changed` labels an open node.
abbrev pub Progress : List Label × Bool → List Label × Bool → Type 0
Progress (labels, changed) (labels', changed') =
    (length labels' ≡ length labels)
    × (open_nodes labels' ≤ open_nodes labels)
    × (changed ≡ false → changed' ≡ true → open_nodes labels' < open_nodes labels)

visit-Progress :
    (g : Graph) (x : ℕ) (labels : List Label) (changed : Bool)
    → Progress (labels, changed) (visit g x (labels, changed))
unfolding visit
visit-Progress g x labels changed = ground (
  arith,
  length-set labels x «in»,
  length-set labels x out,
  open_nodes-set labels x «in»,
  open_nodes-set labels x out,
)

sweep-Progress :
    (g : Graph) (count x : ℕ) (labels : List Label) (changed : Bool)
    → Progress (labels, changed) (sweep g count x (labels, changed))
unfolding sweep
sweep-Progress g zero x labels changed = ground arith
sweep-Progress g (suc count) x labels changed =
    let (labels', changed') = visit g x (labels, changed) in
    let p = visit-Progress g x labels changed in
    let q = sweep-Progress g count (suc x) labels' changed' in
    (
      ground arith,
      ground arith,
      λ h k. elim (Bool-cases changed') [ inl e ↦ ground arith | inr e ↦ ground arith ],
    )

label_loop-total :
    (g : Graph) (fuel : ℕ) (labels : List Label)
    → open_nodes labels < fuel
    → (labels' : List Label) × (label_loop g fuel labels ≡ some labels')
unfolding label_loop
label_loop-total g zero labels h = absurd (omega arith)
label_loop-total g (suc fuel) labels h =
    let (labels', changed) = sweep g g.node_count 0 (labels, false) in
    let p = sweep-Progress g g.node_count 0 labels false in
    elim (Bool-cases changed) [
      | inl e ↦ rw e (label_loop-total g fuel labels' (ground arith))
      | inr e ↦ (labels', rw e)
    ]

from_loop-some :
    (o : Option (List Label)) (labels : List Label) → o ≡ some labels → o ≡ some (from_loop o)
from_loop-some none labels h = cc
from_loop-some (some x) labels h = refl

-- The loop of `grounded_labelling` ends within one round more than the graph has nodes.
pub grounded_labelling-total :
    (g : Graph)
    → label_loop g (suc g.node_count) (replicate g.node_count undec) ≡ some (grounded_labelling g)
unfolding grounded_labelling
grounded_labelling-total g =
    let start = replicate g.node_count undec in
    let (labels, e) =
      label_loop-total g (suc g.node_count) start
        (omega (arith, open_nodes-le start, length-replicate g.node_count undec)) in
    from_loop-some _ labels e
