-- ===== src/Reducer/Extraction.antt =====
-- The edges of `to_graph` in reducer.rs, and the whole function.
use prosthetic_conscience.Prelude.{
  get_of_is_some, ℕ, zero, suc, ◌<◌, ◌≡◌, ◌↔◌, refl, Bool, true, false, ◌&&◌, ◌||◌, List, [], ◌∷◌,
  ◌++◌, none, some, ◌==◌, string_eq, nat_eq, pair_eq, arith, Option-cases, inl, inr, eq_iff, ◌∙◌,
  length, get_elem?, replicate, contains, contains-append, any, as_u32, as_u32_lem, u32_mod, ltb,
  length-set, length-replicate, get_elem?-set, lt_of_get_elem?, le_of_get_elem?, get_elem?-ge,
}
use prosthetic_conscience.Map.{Map, IsUnique, get, contains_key, contains_key-get}
use prosthetic_conscience.Solver.{
  Graph, GraphBuilder, builder, attack, support, row, attackers, push_edge, push_edges, build,
}
use prosthetic_conscience.Types.{
  ClaimId, Entry, new, attacks, supports, ClaimState, RelationState, MaterializedState,
}
use prosthetic_conscience.Reducer.{add_claims, add_relation, add_relations, to_graph, replay}
use prosthetic_conscience.Reducer.Claims.{replay_from-IsUnique, length-replay_from}
use prosthetic_conscience.Reducer.Nodes.{is_active, IsIndex, add_claims-IsIndex, length-add_claims}

-- The rows that the edges are pushed on.
contains-push_edge :
    (rows : List (List ℕ)) (source target x y : ℕ)
    → contains (row (push_edge rows (source, target)) y) x
      ≡ (contains (row rows y) x || target == y && ltb y (length rows) && source == x)
unfolding push_edge
contains-push_edge rows source target x y = elim (Option-cases (get_elem? rows target)) [
  | inl g ↦
      rw (g, push_edge) (ground (arith, get_elem?-ge rows target, le_of_get_elem? rows target g))
  | inr (xs, g) ↦
      rw (g, push_edge)
        (ground (
          arith,
          get_elem?-set rows target y (xs ++ source ∷ []),
          contains-append xs (source ∷ []) x,
          lt_of_get_elem? rows target g,
        ))
]

length-push_edge :
    (rows : List (List ℕ)) (edge : ℕ × ℕ) → length (push_edge rows edge) ≡ length rows
unfolding push_edge
length-push_edge rows (source, target) = elim (Option-cases (get_elem? rows target)) [
  | inl g ↦ rw (g, push_edge) refl
  | inr (xs, g) ↦ rw (g, push_edge) (length-set rows target (xs ++ source ∷ []))
]

pub contains-push_edges :
    (edges : List (ℕ × ℕ)) (rows : List (List ℕ)) (x y : ℕ)
    → contains (row (push_edges rows edges) y) x
      ≡ (contains (row rows y) x || ltb y (length rows) && contains edges (x, y))
unfolding push_edges
contains-push_edges [] rows x y = ground arith
contains-push_edges ((source, target) ∷ edges) rows x y = ground (
  arith,
  contains-push_edges edges (push_edge rows (source, target)) x y,
  contains-push_edge rows source target x y,
  length-push_edge rows (source, target),
)

length-replicate_rows : (n : ℕ) → length (let none_yet : List ℕ = [] in replicate n none_yet) ≡ n
length-replicate_rows n = let none_yet : List ℕ = [] in length-replicate n none_yet

row-replicate : (n y : ℕ) → row (replicate n []) y ≡ []
row-replicate zero y = refl
row-replicate (suc n) zero = refl
row-replicate (suc n) (suc y) = row-replicate n y

attackers-build :
    (b : GraphBuilder) (x y : ℕ)
    → contains (attackers (build b) y) x ≡ (ltb y b.node_count && contains b.attacks (x, y))
unfolding build attackers
attackers-build b x y = ground (
  arith,
  contains-push_edges b.attacks (replicate b.node_count []) x y,
  row-replicate b.node_count y,
  length-replicate_rows b.node_count,
)

abbrev is_attack : RelationState → Bool
is_attack r = elim r.kind [ attacks ↦ true | supports ↦ false ]

-- A relation by which `source` attacks `target`.
abbrev pub attacks_from : ClaimId → ClaimId → RelationState → Bool
attacks_from source target r = is_attack r && r.source_id == source && r.target_id == target

-- A claim has number `x` exactly if it is the claim at `x`.
node_of :
    (nodes : Map ClaimId ℕ) (ids : List ClaimId) (id source : ClaimId) (x : ℕ)
    → IsIndex nodes ids
    → get_elem? ids x ≡ some source
    → (id == source) ≡ elim (get nodes id) [ none ↦ false | some i ↦ i == x ]
node_of nodes ids id source x m g = elim (Option-cases (get nodes id)) [
  | inl h ↦ rw h (ground (arith, m.to_map source x g, eq_iff id source))
  | inr (i, h) ↦ rw h (ground (arith, m.to_map source x g, m.to_list id i h, eq_iff id source))
]

contains-add_relation :
    (nodes : Map ClaimId ℕ) (ids : List ClaimId) (b : GraphBuilder) (r : RelationState)
    (source target : ClaimId) (x y : ℕ)
    → IsIndex nodes ids
    → get_elem? ids x ≡ some source
    → get_elem? ids y ≡ some target
    → contains (add_relation nodes b r).attacks (x, y)
      ≡ (contains b.attacks (x, y) || attacks_from source target r)
unfolding add_relation attack support
contains-add_relation nodes ids b r source target x y m gx gy =
    let from = node_of nodes ids r.source_id source x m gx in
    let to = node_of nodes ids r.target_id target y m gy in
    elim (Option-cases (get nodes r.source_id)) [
      | inl g ↦ ground (arith, from)
      | inr (i, g) ↦ elim (Option-cases (get nodes r.target_id)) [
        | inl h ↦ ground (arith, from, to)
        | inr (j, h) ↦ ground (arith, from, to, contains-append b.attacks ((i, j) ∷ []) (x, y))
      ]
    ]

contains-add_relations :
    (nodes : Map ClaimId ℕ) (ids : List ClaimId) (b : GraphBuilder) (rs : List RelationState)
    (source target : ClaimId) (x y : ℕ)
    → IsIndex nodes ids
    → get_elem? ids x ≡ some source
    → get_elem? ids y ≡ some target
    → contains (add_relations nodes b rs).attacks (x, y)
      ≡ (contains b.attacks (x, y) || any (attacks_from source target) rs)
unfolding add_relations
contains-add_relations nodes ids b [] source target x y m gx gy = ground arith
contains-add_relations nodes ids b (r ∷ rs) source target x y m gx gy = ground (
  arith,
  contains-add_relations nodes ids (add_relation nodes b r) rs source target x y m gx gy,
  contains-add_relation nodes ids b r source target x y m gx gy,
)

node_count-add_relations :
    (nodes : Map ClaimId ℕ) (b : GraphBuilder) (rs : List RelationState)
    → (add_relations nodes b rs).node_count ≡ b.node_count
unfolding add_relations
node_count-add_relations nodes b [] = refl
node_count-add_relations nodes b (r ∷ rs) =
    node_count-add_relations nodes (add_relation nodes b r) rs
    ∙ unfold add_relation attack support in ground arith

-- The nodes of `g` are the active claims, each once, numbered by `ids`, and one of them attacks
-- another exactly if a relation of the state says so.
pub record IsExtraction (state : MaterializedState) (g : Graph) (ids : List ClaimId) : Type 0 where
  pub node_count : g.node_count ≡ length ids
  pub active :
      (id : ClaimId) → (is_active state.claims id ≡ true) ↔ ((i : ℕ) × (get_elem? ids i ≡ some id))
  pub distinct :
      (id : ClaimId) (i j : ℕ) → get_elem? ids i ≡ some id → get_elem? ids j ≡ some id → i ≡ j
  pub attacked :
      (source target : ClaimId) (x y : ℕ)
      → get_elem? ids x ≡ some source
      → get_elem? ids y ≡ some target
      → contains (attackers g y) x ≡ any (attacks_from source target) state.relations

active_iff :
    (nodes : Map ClaimId ℕ) (ids : List ClaimId) (claims : Map ClaimId ClaimState) (id : ClaimId)
    → IsIndex nodes ids
    → contains_key nodes id ≡ is_active claims id
    → (is_active claims id ≡ true) ↔ ((i : ℕ) × (get_elem? ids i ≡ some id))
active_iff nodes ids claims id m k = (
  λ a.
      let (i, h) = get_of_is_some (get nodes id) (ground (arith, contains_key-get nodes id)) in
      (i, m.to_list id i h),
  λ (i, h). ground (arith, m.to_map id i h, contains_key-get nodes id),
)

index_distinct :
    (nodes : Map ClaimId ℕ) (ids : List ClaimId) (id : ClaimId) (i j : ℕ)
    → IsIndex nodes ids
    → get_elem? ids i ≡ some id
    → get_elem? ids j ≡ some id
    → i ≡ j
index_distinct nodes ids id i j m gi gj = ground (arith, m.to_map id i gi, m.to_map id j gj)

empty-IsIndex : IsIndex [] []
unfolding get
empty-IsIndex = record { to_list = λ id i h. cc; to_map = λ id i h. cc }

no_attacks : (n : ℕ) (edge : ℕ × ℕ) → contains (builder n).attacks edge ≡ false
unfolding builder
no_attacks n edge = refl

-- With fewer claims than 32 bits number, the graph is that of the state.
pub to_graph-IsExtraction :
    (state : MaterializedState)
    → length state.claims < u32_mod
    → IsUnique state.claims
    → let (g, ids) = to_graph state in IsExtraction state g ids
unfolding to_graph
to_graph-IsExtraction state room u =
    let (nodes, ids) = add_claims ([], []) state.claims in
    let (m, k) =
      add_claims-IsIndex [] [] state.claims (omega (arith, room)) u
        (λ id h. unfold contains_key in refl) empty-IsIndex in
    let b = add_relations nodes (builder (as_u32 (length ids))) state.relations in
    let count : (build b).node_count ≡ length ids =
      unfold build builder in
      (node_count-add_relations nodes _ state.relations
        ∙ as_u32_lem (length ids) (omega (arith, room, length-add_claims [] [] state.claims))) in
    record {
      node_count = count;
      active = λ id. active_iff nodes ids state.claims id m (unfold contains_key in k id);
      distinct = λ id i j. index_distinct nodes ids id i j m;
      attacked = λ source target x y gx gy. ground (
        arith,
        attackers-build b x y,
        contains-add_relations nodes ids (builder (as_u32 (length ids))) state.relations source
            target x y m gx gy,
        no_attacks (as_u32 (length ids)) (x, y),
        count,
        lt_of_get_elem? ids y gy,
      );
    }

-- For a log of fewer than 2 ^ 32 entries, the nodes of the graph of its state are the active
-- claims, each once, numbered by the list of claims, and one of them attacks another exactly if a
-- relation of the state says so.
pub to_graph-replay :
    (entries : List Entry)
    → length entries < u32_mod
    → let (g, ids) = to_graph (replay entries) in IsExtraction (replay entries) g ids
to_graph-replay entries room =
    to_graph-IsExtraction (replay entries) (omega (arith, room, length-replay_from new entries))
      (replay_from-IsUnique new entries tt)
