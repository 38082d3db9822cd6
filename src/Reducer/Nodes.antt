-- ===== src/Reducer/Nodes.antt =====
-- The first loop of `to_graph` in reducer.rs: which claims become nodes.
use prosthetic_conscience.Prelude.{
  ℕ, suc, ◌+◌, ◌<◌, ◌≤◌, ◌≡◌, refl, Bool, true, false, not, ◌&&◌, ◌||◌, List, [], ◌∷◌, none, some,
  ◌==◌, string_eq, nat_eq, pair_eq, arith, Bool-cases, inl, inr, eq_iff, length, get_elem?, is_some,
  as_u32, as_u32_lem, u32_mod, length-append, get_elem?-snoc, get_elem?-ge,
}
use prosthetic_conscience.Map.{
  Map, IsUnique, get, contains_key, get-update, contains_key-get, contains_key-update,
}
use prosthetic_conscience.Types.{ClaimId, ClaimState}
use prosthetic_conscience.Reducer.{add_claim, add_claims}

-- A claim that is known and not resolved.
abbrev pub is_active : Map ClaimId ClaimState → ClaimId → Bool
is_active claims id = elim (get claims id) [ none ↦ false | some c ↦ not (is_some c.resolution) ]

-- The node map and the list of claims say the same.
pub record IsIndex (nodes : Map ClaimId ℕ) (ids : List ClaimId) : Type 0 where
  pub to_list : (id : ClaimId) (i : ℕ) → get nodes id ≡ some i → get_elem? ids i ≡ some id
  pub to_map : (id : ClaimId) (i : ℕ) → get_elem? ids i ≡ some id → get nodes id ≡ some i

add_claim-IsIndex :
    (nodes : Map ClaimId ℕ) (ids : List ClaimId) (claim_id : ClaimId) (c : ClaimState)
    → length ids < u32_mod
    → contains_key nodes claim_id ≡ false
    → IsIndex nodes ids
    → let (nodes', ids') = add_claim (nodes, ids) claim_id c in IsIndex nodes' ids'
unfolding add_claim
add_claim-IsIndex nodes ids claim_id c room fresh x = elim (Bool-cases (is_some c.resolution)) [
  | inl r ↦ rw r x
  | inr r ↦
      let e = as_u32_lem (length ids) room in
      rw (r, e)
        (record {
          to_list = λ id i h. ground (
            arith,
            x.to_list id i,
            get-update nodes claim_id id (length ids),
            get_elem?-snoc ids claim_id i,
            eq_iff claim_id id,
            get_elem?-ge ids i,
          );
          to_map = λ id i h. ground (
            arith,
            x.to_map id i,
            get-update nodes claim_id id (length ids),
            get_elem?-snoc ids claim_id i,
            eq_iff claim_id id,
            contains_key-get nodes id,
          );
        })
]

contains_key-add_claim :
    (nodes : Map ClaimId ℕ) (ids : List ClaimId) (claim_id : ClaimId) (c : ClaimState)
    (id : ClaimId)
    → contains_key (add_claim (nodes, ids) claim_id c).0 id
      ≡ (contains_key nodes id || claim_id == id && not (is_some c.resolution))
unfolding add_claim
contains_key-add_claim nodes ids claim_id c id =
    ground (arith, contains_key-update nodes claim_id id (as_u32 (length ids)))

pub length-add_claim :
    (nodes : Map ClaimId ℕ) (ids : List ClaimId) (claim_id : ClaimId) (c : ClaimState)
    → length (add_claim (nodes, ids) claim_id c).1 ≤ suc (length ids)
unfolding add_claim
length-add_claim nodes ids claim_id c = ground (arith, length-append ids (claim_id ∷ []))

is_active-cons :
    (claim_id : ClaimId) (c : ClaimState) (claims : Map ClaimId ClaimState) (id : ClaimId)
    → contains_key claims claim_id ≡ false
    → is_active ((claim_id, c) ∷ claims) id
      ≡ (claim_id == id && not (is_some c.resolution) || is_active claims id)
unfolding get
is_active-cons claim_id c claims id fresh =
    ground (arith, contains_key-get claims claim_id, eq_iff claim_id id)

cons :
    (claim_id : ClaimId) (c : ClaimState) (claims : Map ClaimId ClaimState) (id : ClaimId)
    → contains_key ((claim_id, c) ∷ claims) id ≡ (claim_id == id || contains_key claims id)
unfolding contains_key
cons claim_id c claims id = refl

pub add_claims-IsIndex :
    (nodes : Map ClaimId ℕ) (ids : List ClaimId) (claims : Map ClaimId ClaimState)
    → length ids + length claims ≤ u32_mod
    → IsUnique claims
    → ((id : ClaimId) → contains_key claims id ≡ true → contains_key nodes id ≡ false)
    → IsIndex nodes ids
    → let (nodes', ids') = add_claims (nodes, ids) claims in
      IsIndex nodes' ids'
      × ((id : ClaimId) → contains_key nodes' id ≡ (contains_key nodes id || is_active claims id))
unfolding add_claims
add_claims-IsIndex nodes ids [] room u fresh x = (x, λ id. unfold get in ground arith)
add_claims-IsIndex nodes ids ((claim_id, c) ∷ claims) room u fresh x =
    let added = add_claim (nodes, ids) claim_id c in
    let here = contains_key-add_claim nodes ids claim_id c in
    let first : contains_key nodes claim_id ≡ false =
      fresh claim_id (ground (arith, cons claim_id c claims claim_id, eq_iff claim_id claim_id)) in
    let (y, k) =
      add_claims-IsIndex added.0 added.1 claims
        (omega (arith, room, length-add_claim nodes ids claim_id c)) u.1
        (λ id h.
          ground (arith, here id, fresh id, cons claim_id c claims id, u.0, eq_iff claim_id id))
        (add_claim-IsIndex nodes ids claim_id c (omega (arith, room)) first x) in
    (y, λ id. ground (arith, k id, here id, is_active-cons claim_id c claims id u.0))

pub length-add_claims :
    (nodes : Map ClaimId ℕ) (ids : List ClaimId) (claims : Map ClaimId ClaimState)
    → length (add_claims (nodes, ids) claims).1 ≤ length ids + length claims
unfolding add_claims
length-add_claims nodes ids [] = omega arith
length-add_claims nodes ids ((claim_id, c) ∷ claims) =
    let added = add_claim (nodes, ids) claim_id c in
    omega (arith, length-add_claims added.0 added.1 claims, length-add_claim nodes ids claim_id c)
