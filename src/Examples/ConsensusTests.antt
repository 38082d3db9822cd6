-- ===== src/Examples/ConsensusTests.antt =====
-- Tests and instances for reducer.rs and status.rs: a log in which a fact attacks a proposal.
use prosthetic_conscience.Prelude.{
  string_eq, pair_eq, ◌≡◌, ◌≢◌, ◌↔◌, refl, List, [], ◌∷◌, none, some, arith, as_u32,
}
use prosthetic_conscience.Map.{get, update, contains_key}
use prosthetic_conscience.Solver.{out, undec, attack, grounded_labelling}
use prosthetic_conscience.Solver.Semantics.{Derives}
use prosthetic_conscience.Types.{
  Entry, claim, relation, stance, resolve, comment, proposal, fact, attacks, block, consent, tabled,
  is_negative,
}
use prosthetic_conscience.Reducer.{reduce, replay_from, replay, to_graph}
use prosthetic_conscience.Reducer.Claims.{recorded, last_stance, claims-replay, stances-replay}
use prosthetic_conscience.Reducer.Extraction.{IsExtraction, to_graph-replay}
use prosthetic_conscience.Status.{epistemic_status, contested, defeated, stances_on, compute_from}
use prosthetic_conscience.Status.Computed.{status_of, status_of-iff-Derives}

abbrev debate : List Entry
debate =
    claim "plan" "ann" "We move." proposal none
    ∷ claim "cost" "bob" "It is expensive." fact none
    ∷ claim "plan" "eve" "We stay." proposal none
    ∷ relation "cost" "plan" attacks "bob"
    ∷ stance "cost" "ann" consent
    ∷ stance "cost" "ann" block
    ∷ claim "idea" "bob" "We rent." proposal none
    ∷ resolve "idea" "bob" tabled
    ∷ comment none "ann" "Hm."
    ∷ []

-- The attacked claim is defeated, and the attacker contested, as the last stance on it blocks.
plan_status : status_of debate "plan" ≡ some defeated
unfolding replay_from to_graph grounded_labelling compute_from get epistemic_status reduce update
    contains_key as_u32 attack
plan_status = refl

cost_status : status_of debate "cost" ≡ some contested
unfolding replay_from to_graph grounded_labelling compute_from get epistemic_status reduce update
    contains_key as_u32 is_negative attack
cost_status = refl

idea_status : status_of debate "idea" ≡ none
unfolding replay_from to_graph grounded_labelling compute_from get epistemic_status reduce update
    contains_key as_u32 attack
idea_status = refl

claims-replay_example : get (replay debate).claims "idea" ≡ recorded "idea" debate
claims-replay_example = claims-replay debate "idea"

stances-replay_example :
    get (replay debate).stances ("cost", "ann") ≡ last_stance "cost" "ann" none debate
stances-replay_example = stances-replay debate "cost" "ann"

to_graph-replay_example :
    IsExtraction (replay debate) (to_graph (replay debate)).0 (to_graph (replay debate)).1
to_graph-replay_example = to_graph-replay debate (omega arith)

out_ne_undec : out ≢ undec
out_ne_undec e = ground arith

status_of-iff-Derives_example :
    (status_of debate "plan" ≡ some (epistemic_status out (stances_on (replay debate) "plan")))
    ↔ Derives (to_graph (replay debate)).0 0 out
unfolding replay_from to_graph reduce update contains_key get as_u32
status_of-iff-Derives_example =
    status_of-iff-Derives debate "plan" 0 out (omega arith) out_ne_undec refl
