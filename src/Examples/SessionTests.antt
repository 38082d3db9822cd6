-- ===== src/Examples/SessionTests.antt =====
-- Tests and instances for gateway/session/kernel.rs, over numbers as identifiers and payloads.
use prosthetic_conscience.Prelude.{
  ℕ, ◌≡◌, refl, not, ◌&&◌, ◌∷◌, [], List, some, nat_eq, contains, arith,
}
use prosthetic_conscience.Map.{get, contains_key, update}
use prosthetic_conscience.Session.{
  State, Event, entry_appended, subscribed, ticked, subscriber_removed, reduce, run, slice,
}
use prosthetic_conscience.Session.Entries.{
  entries-run, reduce-AllFaithful, AllFaithful, slice-eq-take-drop,
}
use prosthetic_conscience.Session.Subscribers.{removed, get-reduce, removed_exact}

abbrev room : State ℕ ℕ
room = record {
  entries = record { entries = 7 ∷ 8 ∷ [] };
  subscribers = (1, 10) ∷ (2, 20) ∷ [];
  subscriber_ttl = 30;
}

-- At tick 15 the first subscriber is overdue and the second is not.
room_ticked : (reduce room (ticked 15)).effects ≡ subscriber_removed 1 ∷ []
unfolding reduce update
room_ticked = refl

abbrev history : List (Event ℕ ℕ)
history = subscribed 3 5 ∷ entry_appended 9 ∷ ticked 40 ∷ entry_appended 4 ∷ []

entries-run_example : (run room history).entries.entries ≡ 7 ∷ 8 ∷ 9 ∷ 4 ∷ []
entries-run_example = entries-run room history

reduce-AllFaithful_example :
    AllFaithful room (reduce room (entry_appended 9)).state (reduce room (entry_appended 9)).effects
reduce-AllFaithful_example = reduce-AllFaithful room (entry_appended 9)

slice-eq-take-drop_example : slice room.entries 1 100 ≡ 8 ∷ []
slice-eq-take-drop_example = slice-eq-take-drop room.entries 1 100 (omega arith)

get-reduce_example : get (reduce room (ticked 15)).state.subscribers 2 ≡ some 20
unfolding get contains_key
get-reduce_example = get-reduce room (ticked 15) 2 (refl, (refl, tt))

removed_exact_example : contains (removed (reduce room (ticked 15)).effects) 1 ≡ (
    contains_key room.subscribers 1
    && not (contains_key (reduce room (ticked 15)).state.subscribers 1))
removed_exact_example = removed_exact room (ticked 15) 1 (unfold contains_key in (refl, (refl, tt)))
