-- ===== src/Solver/Grounded.antt =====
-- `grounded_labelling` (solver.rs) against the grounded semantics and against complete
-- labellings.
use prosthetic_conscience.Prelude.{
  ℕ, zero, suc, ◌+◌, ◌<◌, ◌≤◌, ◌≡◌, ◌≢◌, ◌↔◌, refl, sym, subst, nat_beq, nat_beq_iff, ◌∙◌, Bool,
  true, false, List, some, arith, all, any, replicate, length, length-replicate, Bool-cases, inl,
  inr,
}
use prosthetic_conscience.Solver.{
  Label, «in», out, undec, label_beq, Graph, attackers, has_label, visit, sweep, label_loop,
  grounded_labelling,
}
use prosthetic_conscience.Solver.Labels.{
  has_label_cases, has_label_unique, all_mem, all_of_mem, any_mem, any_of_mem,
}
use prosthetic_conscience.Solver.Termination.{grounded_labelling-total}
use prosthetic_conscience.Solver.Semantics.{
  Derives, accept, defeat, IsSound, set_in-IsSound, set_out-IsSound,
}

no_label-replicate :
    (n : ℕ) (l : Label) (x : ℕ)
    → label_beq undec l ≡ false
    → has_label (replicate n undec) l x ≡ false
unfolding has_label
no_label-replicate zero l x e = refl
no_label-replicate (suc n) l zero e = e
no_label-replicate (suc n) l (suc x) e = no_label-replicate n l x e

-- Not all attackers are out while one is in.
not_both :
    (labels : List Label) (xs : List ℕ)
    → all (has_label labels out) xs ≡ true
    → any (has_label labels «in») xs ≡ true
    → ⊥
not_both labels xs h k =
    let (a, m, p) = any_mem (has_label labels «in») xs k in
    ground (arith, has_label_unique labels a «in» out p (all_mem (has_label labels out) xs a h m))

module _ (g : Graph) where
  start-IsSound : IsSound g (replicate g.node_count undec)
  start-IsSound =
      let no_in = no_label-replicate g.node_count «in» in
      let no_out = no_label-replicate g.node_count out in
      record {
        covers = length-replicate g.node_count undec;
        accepted = λ x h. absurd (ground (arith, no_in x refl));
        defeated = λ x h. absurd (ground (arith, no_out x refl));
        why_in = λ x h. absurd (ground (arith, no_in x refl));
        why_out = λ x h. absurd (ground (arith, no_out x refl));
      }

  visit-IsSound :
      (x : ℕ) (labels : List Label) (c : Bool)
      → IsSound g labels
      → IsSound g (visit g x (labels, c)).0
  unfolding visit
  visit-IsSound x labels c s = elim (Bool-cases (has_label labels undec x)) [
    | inr p ↦ rw (p, visit) s
    | inl p ↦ elim (Bool-cases (all (has_label labels out) (attackers g x))) [
      | inl q ↦ rw (p, q, visit) (set_in-IsSound g labels s x p q)
      | inr q ↦ elim (Bool-cases (any (has_label labels «in») (attackers g x))) [
        | inl r ↦ rw (p, q, r, visit) (set_out-IsSound g labels s x p r)
        | inr r ↦ rw (p, q, r, visit) s
      ]
    ]
  ]

  sweep-IsSound :
      (count x : ℕ) (labels : List Label) (c : Bool)
      → IsSound g labels
      → IsSound g (sweep g count x (labels, c)).0
  unfolding sweep
  sweep-IsSound zero x labels c s = s
  sweep-IsSound (suc count) x labels c s =
      let (labels', c') = visit g x (labels, c) in
      sweep-IsSound count (suc x) labels' c' (visit-IsSound x labels c s)

  -- Nothing is left to do at an open node.
  abbrev IsSettled : List Label → ℕ → Type 0
  IsSettled labels x =
      has_label labels undec x ≡ true
      → (all (has_label labels out) (attackers g x) ≡ false)
        × (any (has_label labels «in») (attackers g x) ≡ false)

  visit-IsSettled :
      (x : ℕ) (labels : List Label) (c : Bool)
      → (visit g x (labels, c)).1 ≡ false
      → (c ≡ false) × ((visit g x (labels, c)).0 ≡ labels) × IsSettled labels x
  unfolding visit
  visit-IsSettled x labels c h = (ground arith, ground arith, λ p. (ground arith, ground arith))

  sweep-IsSettled :
      (count x : ℕ) (labels : List Label) (c : Bool)
      → (sweep g count x (labels, c)).1 ≡ false
      → (c ≡ false)
        × ((sweep g count x (labels, c)).0 ≡ labels)
        × ((y : ℕ) → x ≤ y → y < x + count → IsSettled labels y)
  unfolding sweep
  sweep-IsSettled zero x labels c h = (h, refl, λ y p q. absurd (omega arith))
  sweep-IsSettled (suc count) x labels c h =
      let (labels', c') = visit g x (labels, c) in
      let later = sweep-IsSettled count (suc x) labels' c' h in
      let here = visit-IsSettled x labels c later.0 in
      (
        here.0,
        later.1 ∙ here.1,
        λ y p q. elim (Bool-cases (nat_beq x y)) [
          | inl e ↦ rw (← (nat_beq_iff x y).0 e) here.2
          | inr e ↦ subst (λ ls. IsSettled ls y) here.1 (later.2 y (ground arith) (omega arith))
        ],
      )

  -- What the loop ends with: a sound labelling with nothing left to do.
  label_loop_end :
      (fuel : ℕ) (labels labels' : List Label)
      → IsSound g labels
      → label_loop g fuel labels ≡ some labels'
      → IsSound g labels' × ((y : ℕ) → y < g.node_count → IsSettled labels' y)
  unfolding label_loop
  label_loop_end zero labels labels' s h = cc
  label_loop_end (suc fuel) labels labels' s h =
      let (next, changed) = sweep g g.node_count 0 (labels, false) in
      let s' : IsSound g next = sweep-IsSound g.node_count 0 labels false s in
      elim (Bool-cases changed) [
        | inl e ↦ label_loop_end fuel next labels' s' (ground arith)
        | inr e ↦
            let done = sweep-IsSettled g.node_count 0 labels false e in
            let same : next ≡ labels' = ground arith in
            (
              subst (IsSound g) same s',
              λ y p.
                  subst (λ ls. IsSettled ls y) (sym done.1 ∙ same)
                    (done.2 y (omega arith) (omega arith)),
            )
      ]

  grounded_end :
      IsSound g (grounded_labelling g)
      × ((y : ℕ) → y < g.node_count → IsSettled (grounded_labelling g) y)
  grounded_end =
      label_loop_end (suc g.node_count) (replicate g.node_count undec) (grounded_labelling g)
        start-IsSound (grounded_labelling-total g)

  -- There is one label for each node.
  pub length-grounded_labelling : length (grounded_labelling g) ≡ g.node_count
  length-grounded_labelling = grounded_end.0.covers

  -- Every node has its label from those of its attackers: it is in exactly if all of them are out,
  -- and out exactly if one of them is in.
  abbrev pub IsComplete : List Label → Type 0
  IsComplete labels =
      (x : ℕ)
      → x < g.node_count
      → (has_label labels «in» x ≡ all (has_label labels out) (attackers g x))
        × (has_label labels out x ≡ any (has_label labels «in») (attackers g x))

  sound_settled-IsComplete :
      (labels : List Label)
      → IsSound g labels
      → ((y : ℕ) → y < g.node_count → IsSettled labels y)
      → IsComplete labels
  sound_settled-IsComplete labels s settled x h = ground (
    arith,
    has_label_cases labels x (omega (arith, s.covers)),
    has_label_unique labels x «in» out,
    has_label_unique labels x «in» undec,
    has_label_unique labels x out undec,
    not_both labels (attackers g x),
    s.why_in x,
    s.why_out x,
    settled x h,
  )

  -- The result is a complete labelling.
  pub grounded_labelling-IsComplete : IsComplete (grounded_labelling g)
  grounded_labelling-IsComplete =
      sound_settled-IsComplete (grounded_labelling g) grounded_end.0 grounded_end.1

  -- `grounded_labelling` labels a node of the graph in exactly if all its attackers are out, and
  -- out exactly if one of them is in.
  pub grounded_labelling_lem :
      (x : ℕ)
      → x < g.node_count
      → let labels = grounded_labelling g in
        (has_label labels «in» x ≡ all (has_label labels out) (attackers g x))
        × (has_label labels out x ≡ any (has_label labels «in») (attackers g x))
  grounded_labelling_lem x h = grounded_labelling-IsComplete x h

  -- Every complete labelling has the derivable labels.
  Derives-IsComplete :
      (labels : List Label)
      → IsComplete labels
      → {x : ℕ} {l : Label} → Derives g x l
      → has_label labels l x ≡ true
  Derives-IsComplete labels c (accept {x} p f) =
      (c x p).0
      ∙ all_of_mem (has_label labels out) (attackers g x)
          (λ a m. Derives-IsComplete labels c (f a m))
  Derives-IsComplete labels c (defeat {x} p a m d) =
      (c x p).1
      ∙ any_of_mem (has_label labels «in») (attackers g x) a m (Derives-IsComplete labels c d)

  labelled-Derives :
      (x : ℕ) (l : Label) → l ≢ undec → has_label (grounded_labelling g) l x ≡ true → Derives g x l
  labelled-Derives x «in» n h = grounded_end.0.accepted x h
  labelled-Derives x out n h = grounded_end.0.defeated x h
  labelled-Derives x undec n h = absurd (n refl)

  -- A node of a graph is labelled in or out by `grounded_labelling` exactly if the inductive
  -- rules of the grounded semantics derive that label for it.
  pub labelled-iff-Derives :
      (x : ℕ) (l : Label)
      → l ≢ undec
      → (has_label (grounded_labelling g) l x ≡ true) ↔ Derives g x l
  labelled-iff-Derives x l n = (
    labelled-Derives x l n,
    Derives-IsComplete (grounded_labelling g) grounded_labelling-IsComplete,
  )

  -- Every complete labelling of a graph agrees with `grounded_labelling` wherever that is in or
  -- out.
  pub grounded_labelling-least :
      (labels : List Label) (x : ℕ) (l : Label)
      → IsComplete labels
      → l ≢ undec
      → has_label (grounded_labelling g) l x ≡ true
      → has_label labels l x ≡ true
  grounded_labelling-least labels x l c n h = Derives-IsComplete labels c (labelled-Derives x l n h)
