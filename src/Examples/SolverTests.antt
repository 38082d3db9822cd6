-- ===== src/Examples/SolverTests.antt =====
-- Tests and instances for solver.rs.
use prosthetic_conscience.Prelude.{
  all, any, ◌≡◌, ◌≢◌, ◌↔◌, refl, true, List, [], ◌∷◌, some, arith, replicate,
}
use prosthetic_conscience.Solver.{
  attackers, Label, «in», out, undec, Graph, builder, attack, build, has_label, label_loop,
  grounded_labelling,
}
use prosthetic_conscience.Solver.Termination.{grounded_labelling-total}
use prosthetic_conscience.Solver.Semantics.{Derives}
use prosthetic_conscience.Solver.Grounded.{
  grounded_labelling_lem, labelled-iff-Derives, grounded_labelling-least,
  grounded_labelling-IsComplete,
}

-- 0 attacks 1, 1 attacks 2, and 3 and 4 attack one another.
abbrev chain : Graph
chain = record {
  node_count = 5;
  attacked_by = [] ∷ (0 ∷ []) ∷ (1 ∷ []) ∷ (4 ∷ []) ∷ (3 ∷ []) ∷ [];
  supported_by = [] ∷ [] ∷ [] ∷ [] ∷ [] ∷ [];
}

abbrev chain_labels : List Label
chain_labels = «in» ∷ out ∷ «in» ∷ undec ∷ undec ∷ []

chain_built : build (attack (attack (attack (attack (builder 5) 0 1) 1 2) 4 3) 3 4) ≡ chain
unfolding build attack builder
chain_built = refl

chain_labelled : grounded_labelling chain ≡ chain_labels
unfolding grounded_labelling
chain_labelled = refl

in_ne_undec : «in» ≢ undec
in_ne_undec e = ground arith

grounded_labelling-total_example :
    label_loop chain 6 (replicate 5 undec) ≡ some (grounded_labelling chain)
grounded_labelling-total_example = grounded_labelling-total chain

labelled-iff-Derives_example :
    (has_label (grounded_labelling chain) «in» 2 ≡ true) ↔ Derives chain 2 «in»
labelled-iff-Derives_example = labelled-iff-Derives chain 2 «in» in_ne_undec

grounded_labelling_lem_example :
    (has_label (grounded_labelling chain) «in» 2
      ≡ all (has_label (grounded_labelling chain) out) (attackers chain 2))
    × (has_label (grounded_labelling chain) out 2
        ≡ any (has_label (grounded_labelling chain) «in») (attackers chain 2))
grounded_labelling_lem_example = grounded_labelling_lem chain 2 (omega arith)

grounded_labelling-least_example : has_label chain_labels «in» 2 ≡ true
unfolding grounded_labelling
grounded_labelling-least_example =
    grounded_labelling-least chain chain_labels 2 «in» (grounded_labelling-IsComplete chain)
      in_ne_undec refl
