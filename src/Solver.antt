-- ===== src/Solver.antt =====
-- crates/consensus/src/solver.rs: argumentation graphs and the grounded labelling. A node is the
-- number that `NodeId` wraps.
pub mod Labels
pub mod Termination
pub mod Semantics
pub mod Grounded
use prosthetic_conscience.Prelude.{
  ℕ, zero, suc, ◌≡◌, refl, Bool, true, false, ◌&&◌, ◌||◌, not, List, [], ◌∷◌, ◌++◌, Option, none,
  some, get_elem?, set, replicate, all, any, length, if◌then◌else◌,
}

-- `«in»` is spelled so because the word is taken.
pub data Label : Type 0 where
  «in» out undec : Label

abbrev pub label_beq : Label → Label → Bool
label_beq «in» «in» = true
label_beq out out = true
label_beq undec undec = true
label_beq _ _ = false

pub record Graph : Type 0 where
  pub node_count : ℕ
  pub attacked_by : List (List ℕ)
  pub supported_by : List (List ℕ)

pub record GraphBuilder : Type 0 where
  pub node_count : ℕ
  pub attacks : List (ℕ × ℕ)
  pub supports : List (ℕ × ℕ)

unfoldable pub builder : ℕ → GraphBuilder
builder node_count = record { node_count = node_count; attacks = []; supports = [] }

unfoldable pub attack : GraphBuilder → ℕ → ℕ → GraphBuilder
attack b source target = record b { attacks = b.attacks ++ (source, target) ∷ [] }

unfoldable pub support : GraphBuilder → ℕ → ℕ → GraphBuilder
support b source target = record b { supports = b.supports ++ (source, target) ∷ [] }

-- The row of a node: `get(i).map(Vec::as_slice).unwrap_or(&[])`.
abbrev pub row : List (List ℕ) → ℕ → List ℕ
row rows i = elim (get_elem? rows i) [ none ↦ [] | some xs ↦ xs ]

unfoldable pub attackers : Graph → ℕ → List ℕ
attackers g target = row g.attacked_by target

-- The body of the loops of `build`, and a loop.
unfoldable pub push_edge : List (List ℕ) → ℕ × ℕ → List (List ℕ)
push_edge rows (source, target) = elim (get_elem? rows target) [
  | none ↦ rows
  | some xs ↦ set rows target (xs ++ source ∷ [])
]

unfoldable pub push_edges : List (List ℕ) → List (ℕ × ℕ) → List (List ℕ)
unfolding push_edge
push_edges rows [] = rows
push_edges rows (edge ∷ edges) = push_edges (push_edge rows edge) edges

unfoldable pub build : GraphBuilder → Graph
unfolding push_edges
build b = record {
  node_count = b.node_count;
  attacked_by = push_edges (replicate b.node_count []) b.attacks;
  supported_by = push_edges (replicate b.node_count []) b.supports;
}

-- `labels.get(node).copied() == Some(label)`.
unfoldable pub has_label : List Label → Label → ℕ → Bool
has_label labels label node = elim (get_elem? labels node) [
  | none ↦ false
  | some l ↦ label_beq l label
]

-- The body of the `for` loop: the labels and the flag `changed`.
unfoldable pub visit : Graph → ℕ → List Label × Bool → List Label × Bool
unfolding has_label attackers
visit g node (labels, changed) =
    if not (has_label labels undec node)
    then (labels, changed)
    else if all (has_label labels out) (attackers g node)
    then (set labels node «in», true)
    else if any (has_label labels «in») (attackers g node)
    then (set labels node out, true)
    else (labels, changed)

-- The `for` loop over the `count` nodes from `node` on.
unfoldable pub sweep : Graph → ℕ → ℕ → List Label × Bool → List Label × Bool
unfolding visit
sweep g zero node acc = acc
sweep g (suc count) node acc = sweep g count (suc node) (visit g node acc)

-- The outer loop; `none` means that the fuel ran out.
unfoldable pub label_loop : Graph → ℕ → List Label → Option (List Label)
unfolding sweep
label_loop g zero labels = none
label_loop g (suc fuel) labels =
    let (labels', changed) = sweep g g.node_count 0 (labels, false) in
    let rest = label_loop g fuel labels' in if changed then rest else some labels'

-- The labels that the loop ends with, none of them if it ran out of fuel.
abbrev pub from_loop : Option (List Label) → List Label
from_loop none = []
from_loop (some labels) = labels

-- The fuel is one round for each node and one more.
unfoldable pub grounded_labelling : Graph → List Label
unfolding label_loop
grounded_labelling g = from_loop (label_loop g (suc g.node_count) (replicate g.node_count undec))
