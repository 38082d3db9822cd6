-- ===== src/Reducer/Claims.antt =====
-- What the replay of a log holds, against descriptions that read the log itself: `reduce` and
-- `replay` of reducer.rs.
use prosthetic_conscience.Prelude.{
  suc, ◌+◌, ◌≤◌, length, ◌≡◌, refl, ◌&&◌, List, [], ◌∷◌, ◌++◌, Option, none, some, String, ◌==◌,
  string_eq, pair_eq, if◌then◌else◌, arith, Bool-cases, Option-cases, inl, inr, eq_iff, ◌∙◌, sym,
  ap,
}
use mathlib.Core.List.{append-nil, append_assoc}
use prosthetic_conscience.Map.{
  IsUnique, get, contains_key, get-update, contains_key-get, update-IsUnique, length-update,
}
use prosthetic_conscience.Types.{
  ClaimId, ClaimKind, Outcome, Entry, claim, relation, stance, resolve, comment, Resolution,
  ClaimState, RelationState, StanceState, MaterializedState, new,
}
use prosthetic_conscience.Reducer.{reduce, replay_from, replay}

-- The outcome of the last resolution of a claim, `acc` if there is none.
abbrev pub last_resolution : ClaimId → Option Resolution → List Entry → Option Resolution
last_resolution id acc [] = acc
last_resolution id acc (resolve claim_id author outcome ∷ entries) =
    last_resolution id
      (if claim_id == id then some (record { outcome = outcome; author = author }) else acc) entries
last_resolution id acc (_ ∷ entries) = last_resolution id acc entries

-- The first claim with an identifier, with the last resolution that follows it.
abbrev pub recorded : ClaimId → List Entry → Option ClaimState
recorded id [] = none
recorded id (claim claim_id author body claim_kind parent_id ∷ entries) =
    if claim_id == id
    then some (record {
      id = claim_id;
      author = author;
      body = body;
      kind = claim_kind;
      parent_id = parent_id;
      resolution = last_resolution id none entries;
    })
    else recorded id entries
recorded id (_ ∷ entries) = recorded id entries

-- The last stance of an author on a claim, `acc` if there is none.
abbrev pub last_stance : ClaimId → String → Option StanceState → List Entry → Option StanceState
last_stance id who acc [] = acc
last_stance id who acc (stance target_id author position ∷ entries) =
    last_stance id who
      (if target_id == id && author == who
        then some (record { target_id = target_id; author = author; position = position })
        else acc)
      entries
last_stance id who acc (_ ∷ entries) = last_stance id who acc entries

abbrev relations_in : List Entry → List RelationState
relations_in [] = []
relations_in (relation source_id target_id kind author ∷ entries) =
    record { source_id = source_id; target_id = target_id; kind = kind; author = author }
    ∷ relations_in entries
relations_in (_ ∷ entries) = relations_in entries

abbrev recorded_from : ClaimId → Option ClaimState → List Entry → Option ClaimState
recorded_from id none entries = recorded id entries
recorded_from id (some c) entries =
    some (record c { resolution = last_resolution id c.resolution entries })

get-claims_claim :
    (state : MaterializedState) (claim_id : ClaimId) (author body : String) (kind : ClaimKind)
    (parent_id : Option ClaimId) (id : ClaimId)
    → get (reduce state (claim claim_id author body kind parent_id)).claims id
      ≡ elim (get state.claims id) [
        | some c ↦ some c
        | none ↦
            if claim_id == id
            then some (record {
              id = claim_id;
              author = author;
              body = body;
              kind = kind;
              parent_id = parent_id;
              resolution = none;
            })
            else none
      ]
unfolding reduce
get-claims_claim state claim_id author body kind parent_id id =
    let c : ClaimState = record {
      id = claim_id;
      author = author;
      body = body;
      kind = kind;
      parent_id = parent_id;
      resolution = none;
    } in
    ground (
      arith,
      get-update state.claims claim_id id c,
      contains_key-get state.claims claim_id,
      eq_iff claim_id id,
    )

get-claims_resolve :
    (state : MaterializedState) (claim_id : ClaimId) (author : String) (outcome : Outcome)
    (id : ClaimId)
    → get (reduce state (resolve claim_id author outcome)).claims id ≡ elim (get state.claims id) [
      | none ↦ none
      | some c ↦ some (record c {
        resolution =
            if claim_id == id
            then some (record { outcome = outcome; author = author })
            else c.resolution;
      })
    ]
unfolding reduce
get-claims_resolve state claim_id author outcome id =
    elim (Option-cases (get state.claims claim_id)) [
      | inl g ↦ rw (g, reduce) (ground (arith, eq_iff claim_id id))
      | inr (c, g) ↦
          let c' : ClaimState = record c {
            resolution = some (record { outcome = outcome; author = author });
          } in
          rw (g, reduce)
            (ground (arith, get-update state.claims claim_id id c', eq_iff claim_id id))
    ]

claims-replay_from :
    (state : MaterializedState) (entries : List Entry) (id : ClaimId)
    → get (replay_from state entries).claims id ≡ recorded_from id (get state.claims id) entries
unfolding replay_from
claims-replay_from state [] id = elim (Option-cases (get state.claims id)) [
  | inl g ↦ rw g refl
  | inr (c, g) ↦ rw g refl
]
claims-replay_from state (claim claim_id author body kind parent_id ∷ entries) id =
    claims-replay_from (reduce state (claim claim_id author body kind parent_id)) entries id
    ∙ rw (get-claims_claim state claim_id author body kind parent_id id)
        (elim (Option-cases (get state.claims id)) [
          | inl g ↦ rw g (ground arith)
          | inr (c, g) ↦ rw g refl
        ])
claims-replay_from state (resolve claim_id author outcome ∷ entries) id =
    claims-replay_from (reduce state (resolve claim_id author outcome)) entries id
    ∙ rw (get-claims_resolve state claim_id author outcome id)
        (elim (Option-cases (get state.claims id)) [ inl g ↦ rw g refl | inr (c, g) ↦ rw g refl ])
claims-replay_from state (relation a b k w ∷ entries) id =
    claims-replay_from (reduce state (relation a b k w)) entries id ∙ unfold reduce in ground arith
claims-replay_from state (stance t a p ∷ entries) id =
    claims-replay_from (reduce state (stance t a p)) entries id ∙ unfold reduce in ground arith
claims-replay_from state (comment c a b ∷ entries) id =
    claims-replay_from (reduce state (comment c a b)) entries id ∙ unfold reduce in ground arith

-- After the replay of a log, a claim is the first entry that makes it, with the last resolution
-- after that entry, and there is none if no entry makes it.
pub claims-replay :
    (entries : List Entry) (id : ClaimId) → get (replay entries).claims id ≡ recorded id entries
unfolding get
claims-replay entries id = claims-replay_from new entries id

stances-replay_from :
    (state : MaterializedState) (entries : List Entry) (id : ClaimId) (who : String)
    → get (replay_from state entries).stances (id, who)
      ≡ last_stance id who (get state.stances (id, who)) entries
unfolding replay_from reduce
stances-replay_from state [] id who = refl
stances-replay_from state (stance target_id author position ∷ entries) id who =
    let given : StanceState = record {
      target_id = target_id;
      author = author;
      position = position;
    } in
    stances-replay_from (reduce state (stance target_id author position)) entries id who
    ∙ unfold reduce in
      ap (λ acc. last_stance id who acc entries)
        (get-update state.stances (target_id, author) (id, who) given)
stances-replay_from state (claim c a b k p ∷ entries) id who =
    stances-replay_from (reduce state (claim c a b k p)) entries id who
    ∙ unfold reduce in ground arith
stances-replay_from state (resolve c a o ∷ entries) id who =
    stances-replay_from (reduce state (resolve c a o)) entries id who
    ∙ unfold reduce in ground arith
stances-replay_from state (relation a b k w ∷ entries) id who =
    stances-replay_from (reduce state (relation a b k w)) entries id who
stances-replay_from state (comment c a b ∷ entries) id who =
    stances-replay_from (reduce state (comment c a b)) entries id who

-- After the replay of a log, the stance of an author on a claim is the last one that the log has.
pub stances-replay :
    (entries : List Entry) (id : ClaimId) (who : String)
    → get (replay entries).stances (id, who) ≡ last_stance id who none entries
unfolding get
stances-replay entries id who = stances-replay_from new entries id who

relations-replay_from :
    (state : MaterializedState) (entries : List Entry)
    → (replay_from state entries).relations ≡ state.relations ++ relations_in entries
unfolding replay_from
relations-replay_from state [] = sym (append-nil state.relations)
relations-replay_from state (relation a b k w ∷ entries) =
    relations-replay_from (reduce state (relation a b k w)) entries
    ∙ unfold reduce in append_assoc state.relations _ _
relations-replay_from state (claim c a b k p ∷ entries) =
    relations-replay_from (reduce state (claim c a b k p)) entries ∙ unfold reduce in ground arith
relations-replay_from state (resolve c a o ∷ entries) =
    relations-replay_from (reduce state (resolve c a o)) entries ∙ unfold reduce in ground arith
relations-replay_from state (stance t a p ∷ entries) =
    relations-replay_from (reduce state (stance t a p)) entries ∙ unfold reduce in refl
relations-replay_from state (comment c a b ∷ entries) =
    relations-replay_from (reduce state (comment c a b)) entries ∙ unfold reduce in refl

-- The relations of the replayed state are those of the log, in its order.
relations-replay : (entries : List Entry) → (replay entries).relations ≡ relations_in entries
relations-replay entries = relations-replay_from new entries

reduce-IsUnique :
    (state : MaterializedState) (entry : Entry)
    → IsUnique state.claims
    → IsUnique (reduce state entry).claims
unfolding reduce
reduce-IsUnique state (claim claim_id author body kind parent_id) u =
    elim (Bool-cases (contains_key state.claims claim_id)) [
      | inl h ↦ rw (h, reduce) u
      | inr h ↦ rw (h, reduce) (update-IsUnique state.claims claim_id _ u)
    ]
reduce-IsUnique state (resolve claim_id author outcome) u =
    elim (Option-cases (get state.claims claim_id)) [
      | inl g ↦ rw (g, reduce) u
      | inr (c, g) ↦ rw (g, reduce) (update-IsUnique state.claims claim_id _ u)
    ]
reduce-IsUnique state (relation a b k w) u = u
reduce-IsUnique state (stance t a p) u = u
reduce-IsUnique state (comment c a b) u = u

length-reduce :
    (state : MaterializedState) (entry : Entry)
    → length (reduce state entry).claims ≤ suc (length state.claims)
unfolding reduce
length-reduce state (claim claim_id author body kind parent_id) =
    elim (Bool-cases (contains_key state.claims claim_id)) [
      | inl h ↦ rw (h, reduce) (omega arith)
      | inr h ↦ rw (h, reduce) (length-update state.claims claim_id _)
    ]
length-reduce state (resolve claim_id author outcome) =
    elim (Option-cases (get state.claims claim_id)) [
      | inl g ↦ rw (g, reduce) (omega arith)
      | inr (c, g) ↦ rw (g, reduce) (length-update state.claims claim_id _)
    ]
length-reduce state (relation a b k w) = omega arith
length-reduce state (stance t a p) = omega arith
length-reduce state (comment c a b) = omega arith

pub replay_from-IsUnique :
    (state : MaterializedState) (entries : List Entry)
    → IsUnique state.claims
    → IsUnique (replay_from state entries).claims
unfolding replay_from
replay_from-IsUnique state [] u = u
replay_from-IsUnique state (entry ∷ entries) u =
    replay_from-IsUnique (reduce state entry) entries (reduce-IsUnique state entry u)

pub length-replay_from :
    (state : MaterializedState) (entries : List Entry)
    → length (replay_from state entries).claims ≤ length state.claims + length entries
unfolding replay_from
length-replay_from state [] = omega arith
length-replay_from state (entry ∷ entries) =
    omega (arith, length-replay_from (reduce state entry) entries, length-reduce state entry)
