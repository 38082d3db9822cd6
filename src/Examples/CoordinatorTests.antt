-- ===== src/Examples/CoordinatorTests.antt =====
-- Tests and instances for coordinator.rs, over numbers as entries.
use prosthetic_conscience.Prelude.{
  ℕ, ◌≡◌, ◌<◌, refl, true, ◌∷◌, [], List, some, get_elem?, length, arith, add64, if◌then◌else◌,
}
use prosthetic_conscience.Coordinator.{
  requested, received, State, Event, entry_received, fetch_missing, empty, plan_missing_fetches,
  plan_from, pages, requested_run, position_requested, reduce, run, committed_prefix,
  sync_to_latest, resize,
}
use prosthetic_conscience.Coordinator.Fetches.{asked, AllPages, plan_exact}
use prosthetic_conscience.Coordinator.Slots.{get_elem?-reduce, get_elem?-sync_to_latest}
use prosthetic_conscience.Coordinator.Prefix.{
  Delivers, is_delivered, committed_prefix-run, committed_prefix-eq,
}

abbrev gappy : State ℕ
gappy = record {
  slots = requested ∷ received 7 ∷ requested ∷ requested ∷ requested ∷ [];
  page_limit = 2;
}

gappy_plan :
    plan_missing_fetches gappy ≡ fetch_missing 0 1 ∷ fetch_missing 2 2 ∷ fetch_missing 4 1 ∷ []
unfolding plan_from pages requested_run
gappy_plan = refl

abbrev log : List ℕ
log = 7 ∷ 8 ∷ 9 ∷ []

abbrev shuffled : List (Event ℕ)
shuffled = entry_received 2 9 ∷ entry_received 0 7 ∷ entry_received 2 9 ∷ entry_received 1 8 ∷ []

shuffled-Delivers : Delivers log shuffled
shuffled-Delivers = (refl, (refl, (refl, (refl, tt))))

shuffled_delivered : (i : ℕ) → i < length log → is_delivered i shuffled ≡ true
shuffled_delivered i h = ground arith

plan_exact_example :
    (asked (plan_missing_fetches gappy) 3 ≡ (if true then 1 else 0))
    × AllPages 2 5 (plan_missing_fetches gappy)
plan_exact_example = plan_exact gappy 3 (omega arith)

get_elem?-reduce_example :
    get_elem? (reduce gappy (entry_received 6 5)).state.slots 5 ≡ some requested
get_elem?-reduce_example = get_elem?-reduce gappy 6 5 5 (omega arith)

get_elem?-sync_to_latest_example :
    get_elem? (sync_to_latest gappy (some 6)).state.slots 5 ≡ some requested
get_elem?-sync_to_latest_example = get_elem?-sync_to_latest gappy 6 5 (omega arith)

abbrev early : List (Event ℕ)
early = entry_received 2 9 ∷ entry_received 0 7 ∷ []

committed_prefix-run_example : committed_prefix (run (empty 2) early) ≡ 7 ∷ []
unfolding reduce resize add64 position_requested
committed_prefix-run_example = committed_prefix-run log 2 early (omega arith) (refl, (refl, tt))

committed_prefix-eq_example : committed_prefix (run (empty 2) shuffled) ≡ log
committed_prefix-eq_example =
    committed_prefix-eq log 2 shuffled (omega arith) shuffled-Delivers shuffled_delivered

-- An entry that arrives at the last machine word empties the slots: the size that is asked for
-- wraps around to 0.
wrapped_index : (reduce gappy (entry_received 18446744073709551615 5)).state.slots ≡ []
unfolding reduce resize add64
wrapped_index = refl
