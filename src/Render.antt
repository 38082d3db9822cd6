-- ===== src/Render.antt =====
-- crates/consensus/src/render.rs: what the materialized state and the statuses look like to a
-- participant. The hash maps of the source are association lists; every list that is built from one
-- is sorted, as in the source.
use prosthetic_conscience.Prelude.{
  ℕ, Bool, true, false, ◌&&◌, ◌||◌, String, List, [], ◌∷◌, ◌++◌, Option, none, some, ◌==◌,
  string_eq, pair_eq, if◌then◌else◌, is_some, length, filterb, map, ltb, nat_beq, sort_by, text_ltb,
}
use prosthetic_conscience.Map.{Map, get}
use prosthetic_conscience.Types.{
  ClaimId, ClaimKind, item, proposal, RelationKind, attacks, supports, Position, is_negative,
  Resolution, ClaimState, RelationState, StanceState, MaterializedState,
}
use prosthetic_conscience.Types
use prosthetic_conscience.Status.{EpistemicStatus, values}
use prosthetic_conscience.Status

pub record StanceSummary : Type 0 where
  pub position : Position
  pub authors : List String

pub record ClaimSummary : Type 0 where
  pub id : ClaimId
  pub body : String
  pub author : String
  pub kind : ClaimKind
  pub status : Option EpistemicStatus
  pub stances : List StanceSummary
  pub parent_id : Option ClaimId
  pub resolution : Option Resolution

pub data AttentionSignal : Type 0 where
  unexamined : (claim_id : ClaimId) (body author : String) → AttentionSignal
  contested : (claim_id : ClaimId) (body : String) (blockers : List String) → AttentionSignal
  unresolved_cycle : (claim_ids : List ClaimId) → AttentionSignal

pub record OverviewData : Type 0 where
  pub total_claims : ℕ
  pub total_relations : ℕ
  pub total_stances : ℕ
  pub participants : List String
  pub items : List ClaimSummary
  pub proposals : List ClaimSummary
  pub resolved : List ClaimSummary
  pub attention : List AttentionSignal

pub record ClaimDetail : Type 0 where
  pub claim : ClaimSummary
  pub attacked_by : List ClaimSummary
  pub supported_by : List ClaimSummary
  pub attacks : List ClaimSummary
  pub supports : List ClaimSummary

-- `position as u8`.
abbrev pub position_code : Position → ℕ
position_code Types.block = 0
position_code Types.object = 1
position_code Types.stand_aside = 2
position_code Types.abstain = 3
position_code Types.consent = 4
position_code Types.support = 5
position_code Types.champion = 6

-- `position_authors.entry(position).or_default().push(author)`.
unfoldable pub push_author : List StanceSummary → Position → String → List StanceSummary
push_author [] position author = record { position = position; authors = author ∷ [] } ∷ []
push_author (s ∷ summaries) position author =
    let rest = push_author summaries position author in
    if nat_beq (position_code s.position) (position_code position)
    then record s { authors = s.authors ++ author ∷ [] } ∷ summaries
    else s ∷ rest

-- The loop over the stances on a claim.
unfoldable pub group_stances : ClaimId → List StanceSummary → List StanceState → List StanceSummary
unfolding push_author
group_stances claim_id summaries [] = summaries
group_stances claim_id summaries (s ∷ stances) =
    group_stances claim_id
      (if s.target_id == claim_id then push_author summaries s.position s.author else summaries)
      stances

unfoldable pub build_claim_summary :
    ClaimState → Map ClaimId EpistemicStatus → MaterializedState → ClaimSummary
unfolding group_stances
build_claim_summary c statuses state = record {
  id = c.id;
  body = c.body;
  author = c.author;
  kind = c.kind;
  status = get statuses c.id;
  stances =
      sort_by (λ a b. ltb (position_code a.position) (position_code b.position))
        (map {A = StanceSummary} (λ s. record s { authors = sort_by text_ltb s.authors })
          (group_stances c.id [] (values state.stances)));
  parent_id = c.parent_id;
  resolution = c.resolution;
}

abbrev pub blockers : MaterializedState → ClaimId → List String
blockers state claim_id =
    map (λ s. s.author)
      (filterb (λ s. s.target_id == claim_id && is_negative s.position) (values state.stances))

-- The signals of one claim, by its status.
abbrev pub signals_of :
    MaterializedState → ClaimId → ClaimState → EpistemicStatus → List AttentionSignal
signals_of state claim_id c Status.unexamined = unexamined claim_id c.body c.author ∷ []
signals_of state claim_id c Status.contested =
    contested claim_id c.body (blockers state claim_id) ∷ []
signals_of state claim_id c Status.unresolved = unresolved_cycle (claim_id ∷ []) ∷ []
signals_of state claim_id c _ = []

unfoldable pub collect_signals :
    MaterializedState → Map ClaimId EpistemicStatus → List AttentionSignal
collect_signals state [] = []
collect_signals state ((claim_id, status) ∷ statuses) = elim (get state.claims claim_id) [
  | none ↦ collect_signals state statuses
  | some c ↦ signals_of state claim_id c status ++ collect_signals state statuses
]

abbrev first_id : List ClaimId → String
first_id [] = ""
first_id (claim_id ∷ claim_ids) = claim_id

-- The closure `key`, and the order of its values.
abbrev pub key : AttentionSignal → ℕ × String
key (contested claim_id body blockers) = (0, claim_id)
key (unexamined claim_id body author) = (1, claim_id)
key (unresolved_cycle claim_ids) = (2, first_id claim_ids)

abbrev pub key_ltb : ℕ × String → ℕ × String → Bool
key_ltb p q = ltb p.0 q.0 || nat_beq p.0 q.0 && text_ltb p.1 q.1

unfoldable pub build_attention_signals :
    MaterializedState → Map ClaimId EpistemicStatus → List AttentionSignal
unfolding collect_signals
build_attention_signals state statuses =
    sort_by (λ a b. key_ltb (key a) (key b)) (collect_signals state statuses)

-- `BTreeSet::insert` of a text.
unfoldable pub insert_participant : List String → String → List String
insert_participant [] name = name ∷ []
insert_participant (x ∷ xs) name =
    let rest = insert_participant xs name in
    if x == name then x ∷ xs else if text_ltb name x then name ∷ x ∷ xs else x ∷ rest

abbrev pub insert_all : List String → List String → List String
insert_all set [] = set
insert_all set (name ∷ names) = insert_all (insert_participant set name) names

-- The summaries of the claims that pass a test, in the order of their identifiers.
unfoldable pub summaries_where :
    (ClaimState → Bool) → MaterializedState → Map ClaimId EpistemicStatus → List ClaimSummary
unfolding build_claim_summary
summaries_where test state statuses =
    sort_by (λ a b. text_ltb a.id b.id)
      (map (λ c. build_claim_summary c statuses state) (filterb test (values state.claims)))

-- The arms of the loop over the claims: a resolved claim is listed as such, whatever its kind.
abbrev pub is_resolved : ClaimState → Bool
is_resolved c = is_some c.resolution

abbrev pub is_open_item : ClaimState → Bool
is_open_item c = elim c.resolution [
  | some r ↦ false
  | none ↦ elim c.kind [ item ↦ true | _ ↦ false ]
]

abbrev pub is_open_proposal : ClaimState → Bool
is_open_proposal c = elim c.resolution [
  | some r ↦ false
  | none ↦ elim c.kind [ proposal ↦ true | _ ↦ false ]
]

unfoldable pub overview : MaterializedState → Map ClaimId EpistemicStatus → OverviewData
unfolding summaries_where build_attention_signals insert_participant
overview state statuses = record {
  total_claims = length state.claims;
  total_relations = length state.relations;
  total_stances = length state.stances;
  participants =
      insert_all (insert_all [] (map (λ c. c.author) (values state.claims)))
        (map (λ s. s.author) (values state.stances));
  items = summaries_where is_open_item state statuses;
  proposals = summaries_where is_open_proposal state statuses;
  resolved = summaries_where is_resolved state statuses;
  attention = build_attention_signals state statuses;
}

-- The claims at the far end of the relations of a kind, for the claims that are there.
unfoldable pub related :
    (RelationState → Bool)
    → (RelationState → ClaimId)
    → MaterializedState
    → Map ClaimId EpistemicStatus
    → List RelationState
    → List ClaimSummary
unfolding build_claim_summary
related test far state statuses [] = []
related test far state statuses (r ∷ relations) =
    let rest = related test far state statuses relations in
    if test r
    then elim (get state.claims (far r)) [
      | none ↦ rest
      | some c ↦ build_claim_summary c statuses state ∷ rest
    ]
    else rest

abbrev is_attack : RelationState → Bool
is_attack r = elim r.kind [ attacks ↦ true | supports ↦ false ]

abbrev is_support : RelationState → Bool
is_support r = elim r.kind [ attacks ↦ false | supports ↦ true ]

unfoldable pub claim_detail :
    MaterializedState → Map ClaimId EpistemicStatus → ClaimId → Option ClaimDetail
unfolding related build_claim_summary
claim_detail state statuses claim_id = elim (get state.claims claim_id) [
  | none ↦ none
  | some c ↦ some (record {
    claim = build_claim_summary c statuses state;
    attacked_by =
        related (λ r. r.target_id == claim_id && is_attack r) (λ r. r.source_id) state statuses
          state.relations;
    supported_by =
        related (λ r. r.target_id == claim_id && is_support r) (λ r. r.source_id) state statuses
          state.relations;
    attacks =
        related (λ r. r.source_id == claim_id && is_attack r) (λ r. r.target_id) state statuses
          state.relations;
    supports =
        related (λ r. r.source_id == claim_id && is_support r) (λ r. r.target_id) state statuses
          state.relations;
  })
]
