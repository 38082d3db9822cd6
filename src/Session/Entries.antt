-- ===== src/Session/Entries.antt =====
-- The log of a session: gateway/session/kernel.rs, `AppendLog` and the `EntryAppended` arm.
use mathlib.Core.List.{append-nil, append_assoc}
use prosthetic_conscience.Prelude.{
  ℕ, zero, suc, ◌+◌, ◌-◌, ◌≤◌, ◌<◌, min, ◌≡◌, refl, ap, true, false, List, [], ◌∷◌, ◌++◌, none,
  some, arith, Eq, length, take, drop, length-drop, get_elem?-ge, get_elem?-concat, contains,
  u64_mod, add64_lem, is_empty, map, ltb, Bool-cases, inl, inr,
}
use prosthetic_conscience.Map.{contains_key, keys, contains-keys}
use prosthetic_conscience.Session.{
  AppendLog, State, Event, Effect, entry_appended, subscribed, unsubscribed, ticked,
  subscriber_heartbeat, notify_subscribers, subscriber_removed, append, get_entry, len, slice,
  reduce, run,
}

module _ {SubId V : Type 0} where
  -- What an event adds to the log.
  abbrev pub payloads : Event SubId V → List V
  payloads (entry_appended payload) = payload ∷ []
  payloads _ = []

  abbrev pub all_payloads : List (Event SubId V) → List V
  all_payloads [] = []
  all_payloads (event ∷ events) = payloads event ++ all_payloads events

module _ {SubId V : Type 0} ⦃e : Eq SubId⦄ where
  -- One event adds at most its own payload, at the end.
  pub entries-reduce :
      (s : State SubId V) (event : Event SubId V)
      → (reduce s event).state.entries.entries ≡ s.entries.entries ++ payloads event
  unfolding reduce append
  entries-reduce s (entry_appended payload) = refl
  entries-reduce s (subscribed k tick) = rw append-nil
  entries-reduce s (unsubscribed k) = ground (arith, append-nil s.entries.entries)
  entries-reduce s (ticked tick) = rw append-nil
  entries-reduce s (subscriber_heartbeat k tick) = ground (arith, append-nil s.entries.entries)

  -- The log of a session after a sequence of events is the old log followed by the payloads that
  -- were appended, in their order.
  pub entries-run :
      (s : State SubId V) (events : List (Event SubId V))
      → (run s events).entries.entries ≡ s.entries.entries ++ all_payloads events
  unfolding run
  entries-run s [] = rw append-nil
  entries-run s (event ∷ events) =
      rw (entries-run (reduce s event).state events, entries-reduce s event, append_assoc)

  -- A notice names an index that was free before the event and holds its payload after it, and
  -- goes to exactly the subscribers of the session.
  abbrev pub IsFaithful : State SubId V → State SubId V → Effect SubId V → Type 0
  IsFaithful s s' (notify_subscribers index payload ids) =
      (get_entry s.entries index ≡ none)
      × (get_entry s'.entries index ≡ some payload)
      × ((k : SubId) → contains ids k ≡ contains_key s.subscribers k)
  IsFaithful s s' (subscriber_removed k) = Unit

  abbrev pub AllFaithful : State SubId V → State SubId V → List (Effect SubId V) → Type 0
  AllFaithful s s' [] = Unit
  AllFaithful s s' (effect ∷ effects) = IsFaithful s s' effect × AllFaithful s s' effects

  append-AllFaithful :
      (s : State SubId V) (payload : V)
      → AllFaithful s
          (reduce s (entry_appended payload)).state
          (reduce s (entry_appended payload)).effects
  unfolding reduce append len get_entry
  append-AllFaithful s payload = elim (Bool-cases (is_empty s.subscribers)) [
    | inl h ↦ rw h tt
    | inr h ↦ rw h (
      (
        get_elem?-ge s.entries.entries (length s.entries.entries) (omega arith),
        get_elem?-concat s.entries.entries payload,
        contains-keys s.subscribers,
      ),
      tt,
    )
  ]

  removed-AllFaithful :
      (s s' : State SubId V) (ks : List SubId) → AllFaithful s s' (map subscriber_removed ks)
  removed-AllFaithful s s' [] = tt
  removed-AllFaithful s s' (k ∷ ks) = (tt, removed-AllFaithful s s' ks)

  -- Every notification that an event of a session causes gives a payload that stands in the new
  -- log at the index it gives, and names the subscribers of the old state.
  pub reduce-AllFaithful :
      (s : State SubId V) (event : Event SubId V)
      → AllFaithful s (reduce s event).state (reduce s event).effects
  unfolding reduce
  reduce-AllFaithful s (entry_appended payload) = append-AllFaithful s payload
  reduce-AllFaithful s (subscribed k tick) = tt
  reduce-AllFaithful s (unsubscribed k) = elim (Bool-cases (contains_key s.subscribers k)) [
    | inl h ↦ rw h (tt, tt)
    | inr h ↦ rw h tt
  ]
  reduce-AllFaithful s (ticked tick) = removed-AllFaithful s (reduce s (ticked tick)).state _
  reduce-AllFaithful s (subscriber_heartbeat k tick) =
      elim (Bool-cases (contains_key s.subscribers k)) [ inl h ↦ rw h tt | inr h ↦ rw h tt ]

  -- With a subscriber present an append is announced, once, to all subscribers.
  pub append_announced :
      (s : State SubId V) (payload : V) (k : SubId)
      → contains_key s.subscribers k ≡ true
      → (reduce s (entry_appended payload)).effects
        ≡ notify_subscribers (length s.entries.entries) payload (keys s.subscribers) ∷ []
  unfolding reduce len contains_key
  append_announced s payload k h = ground arith

min-suc : (k n : ℕ) → min (suc k) (suc n) ≡ suc (min k n)
min-suc k n = omega arith

min-zero : (n : ℕ) → min zero n ≡ zero
min-zero n = omega arith

not_ltb : (a b : ℕ) → b ≤ a → ltb a b ≡ false
not_ltb a b h = ground arith

module _ {V : Type 0} where
  take-min : (xs : List V) (k : ℕ) → take (min k (length xs)) xs ≡ take k xs
  take-min [] zero = refl
  take-min [] (suc k) = ground arith
  take-min (x ∷ xs) zero = rw (min-zero (suc (length xs)))
  take-min (x ∷ xs) (suc k) = rw min-suc (ap (◌∷◌ x) (take-min xs k))

  drop-min : (xs : List V) (k : ℕ) → drop (min k (length xs)) xs ≡ drop k xs
  drop-min [] zero = refl
  drop-min [] (suc k) = ground arith
  drop-min (x ∷ xs) zero = rw (min-zero (suc (length xs)))
  drop-min (x ∷ xs) (suc k) = rw min-suc (drop-min xs k)

  -- A slice of the log whose bounds do not exceed a machine word is the log without its first
  -- entries, cut at the limit.
  pub slice-eq-take-drop :
      (log : AppendLog V) (from limit : ℕ)
      → min from (length log.entries) + limit < u64_mod
      → slice log from limit ≡ take limit (drop from log.entries)
  unfolding slice
  slice-eq-take-drop log from limit h =
      let n = length log.entries in
      let start = min from n in
      let end = min (start + limit) n in
      let in_order : ltb end start ≡ false = not_ltb end start (omega arith) in
      let in_range : ltb n end ≡ false = not_ltb n end (omega arith) in
      let span : end - start ≡ min limit (length (drop start log.entries)) =
        omega (arith, length-drop start log.entries) in
      rw (add64_lem start limit h, in_order, in_range, span, take-min, drop-min, slice)
