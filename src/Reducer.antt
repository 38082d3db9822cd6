-- ===== src/Reducer.antt =====
-- crates/consensus/src/reducer.rs: the fold of the log, and the graph for the solver.
pub mod Claims
pub mod Nodes
pub mod Extraction
use prosthetic_conscience.Prelude.{
  ℕ, Bool, List, [], ◌∷◌, ◌++◌, Option, none, some, String, string_eq, pair_eq, if◌then◌else◌,
  is_some, length, add32, as_u32,
}
use prosthetic_conscience.Map.{Map, get, contains_key, update}
use prosthetic_conscience.Solver.{Graph, GraphBuilder, builder, attack, support, build}
use prosthetic_conscience.Types.{
  ClaimId, RelationKind, attacks, supports, Entry, claim, relation, stance, resolve, comment,
  ClaimState, RelationState, MaterializedState, new,
}

unfoldable pub reduce : MaterializedState → Entry → MaterializedState
reduce state (claim claim_id author body claim_kind parent_id) =
    if contains_key state.claims claim_id then state else record state {
      next_node_id = add32 state.next_node_id 1;
      node_map = update state.node_map claim_id state.next_node_id;
      claims = update state.claims claim_id (record {
        id = claim_id;
        author = author;
        body = body;
        kind = claim_kind;
        parent_id = parent_id;
        resolution = none;
      });
    }
reduce state (relation source_id target_id kind author) = record state {
  relations =
      state.relations
      ++ record { source_id = source_id; target_id = target_id; kind = kind; author = author } ∷ [];
}
reduce state (stance target_id author position) = record state {
  stances =
      update state.stances (target_id, author)
        (record { target_id = target_id; author = author; position = position });
}
reduce state (resolve claim_id author outcome) = elim (get state.claims claim_id) [
  | some c ↦ record state {
    claims =
        update state.claims claim_id
          (record c { resolution = some (record { outcome = outcome; author = author }) });
  }
  | none ↦ state
]
reduce state (comment claim_id author body) = state

-- The fold that `replay` starts at `new`.
unfoldable pub replay_from : MaterializedState → List Entry → MaterializedState
replay_from state [] = state
replay_from state (entry ∷ entries) = replay_from (reduce state entry) entries

abbrev pub replay : List Entry → MaterializedState
replay entries = replay_from new entries

-- The body of the first loop of `to_graph`, and the loop: the nodes of the active claims, and the
-- claims by node.
unfoldable pub add_claim :
    Map ClaimId ℕ × List ClaimId → ClaimId → ClaimState → Map ClaimId ℕ × List ClaimId
add_claim (nodes, ids) claim_id c =
    if is_some c.resolution
    then (nodes, ids)
    else (update nodes claim_id (as_u32 (length ids)), ids ++ claim_id ∷ [])

unfoldable pub add_claims :
    Map ClaimId ℕ × List ClaimId → Map ClaimId ClaimState → Map ClaimId ℕ × List ClaimId
unfolding add_claim
add_claims acc [] = acc
add_claims acc ((claim_id, c) ∷ claims) = add_claims (add_claim acc claim_id c) claims

abbrev pub add_edge : GraphBuilder → RelationKind → ℕ → ℕ → GraphBuilder
add_edge b attacks source target = attack b source target
add_edge b supports source target = support b source target

-- The body of the second loop, and the loop.
unfoldable pub add_relation : Map ClaimId ℕ → GraphBuilder → RelationState → GraphBuilder
add_relation nodes b r = elim (get nodes r.source_id) [
  | none ↦ b
  | some source ↦ elim (get nodes r.target_id) [
    | none ↦ b
    | some target ↦ add_edge b r.kind source target
  ]
]

unfoldable pub add_relations : Map ClaimId ℕ → GraphBuilder → List RelationState → GraphBuilder
unfolding add_relation
add_relations nodes b [] = b
add_relations nodes b (r ∷ relations) = add_relations nodes (add_relation nodes b r) relations

unfoldable pub to_graph : MaterializedState → Graph × List ClaimId
unfolding add_claims add_relations build builder
to_graph state =
    let (nodes, ids) = add_claims ([], []) state.claims in
    let b = builder (as_u32 (length ids)) in (build (add_relations nodes b state.relations), ids)
