-- ===== src/Coordinator/Prefix.antt =====
-- The committed prefix of coordinator.rs against the log that its entries come from.
use prosthetic_conscience.Prelude.{
  Bool, true, false, ◌||◌, subst, ◌∙◌, take-all, ℕ, suc, ◌+◌, ◌≡◌, ◌≢◌, ◌≤◌, ◌<◌, refl, List, [],
  ◌∷◌, some, length, get_elem?, take, arith, inl, inr, u64_mod, Option-cases, Bool-cases, ltb,
  nat_beq, lt_of_get_elem?,
}
use prosthetic_conscience.Coordinator.{
  Slot, requested, received, State, Event, entry_received, empty, position_requested, next_expected,
  received_entries, committed_prefix, reduce, run,
}
use prosthetic_conscience.Coordinator.Slots.{get_elem?-reduce}

module _ {T : Type 0} where
  -- Every received entry stands in the log at its index.
  abbrev pub IsFrom : List T → List (Slot T) → Type 0
  IsFrom log slots =
      (i : ℕ) (entry : T) → get_elem? slots i ≡ some (received entry) → get_elem? log i ≡ some entry

  -- Every event delivers an entry of the log at its index.
  abbrev pub Delivers : List T → List (Event T) → Type 0
  Delivers log [] = Unit
  Delivers log (entry_received index entry ∷ events) =
      (get_elem? log index ≡ some entry) × Delivers log events

  prefix-IsFrom :
      (log : List T) (slots : List (Slot T))
      → IsFrom log slots
      → received_entries (take (position_requested slots) slots)
        ≡ take (position_requested slots) log
  unfolding received_entries position_requested
  prefix-IsFrom log [] f = refl
  prefix-IsFrom log (requested ∷ slots) f = refl
  prefix-IsFrom [] (received entry ∷ slots) f = absurd (cc (f 0 entry refl))
  prefix-IsFrom (x ∷ log) (received entry ∷ slots) f =
      ground (arith, f 0 entry refl, prefix-IsFrom log slots (λ i e h. f (suc i) e h))

  reduce-IsFrom :
      (log : List T) (state : State T) (index : ℕ) (entry : T)
      → length log < u64_mod
      → get_elem? log index ≡ some entry
      → IsFrom log state.slots
      → IsFrom log (reduce state (entry_received index entry)).state.slots
  reduce-IsFrom log state index entry room at f i e h =
      let after =
        get_elem?-reduce state index i entry (omega (arith, room, lt_of_get_elem? log index at)) in
      ground (arith, after, f i e)

  run-IsFrom :
      (log : List T) (state : State T) (events : List (Event T))
      → length log < u64_mod
      → Delivers log events
      → IsFrom log state.slots
      → IsFrom log (run state events).slots
  run-IsFrom log state [] room d f = f
  run-IsFrom log state (entry_received index entry ∷ events) room d f =
      run-IsFrom log (reduce state (entry_received index entry)).state events room d.1
        (reduce-IsFrom log state index entry room d.0 f)

  -- For a log shorter than 2 ^ 64, if every event delivers an entry of the log at its index,
  -- then, starting from no slots, the committed prefix is the beginning of the log up to the next
  -- expected index, in whatever order the events come.
  pub committed_prefix-run :
      (log : List T) (page_limit : ℕ) (events : List (Event T))
      → length log < u64_mod
      → Delivers log events
      → let state = run (empty page_limit) events in
        committed_prefix state ≡ take (next_expected state) log
  committed_prefix-run log page_limit events room d =
      prefix-IsFrom log (run (empty page_limit) events).slots
        (run-IsFrom log (empty page_limit) events room d (λ i entry h. cc))

  abbrev pub IsReceived : State T → ℕ → Type 0
  IsReceived state i = (entry : T) × (get_elem? state.slots i ≡ some (received entry))

  position_requested_lem :
      (slots : List (Slot T)) (entry : T)
      → get_elem? slots (position_requested slots) ≢ some (received entry)
  unfolding position_requested
  position_requested_lem [] entry h = cc
  position_requested_lem (requested ∷ slots) entry h = cc
  position_requested_lem (received e ∷ slots) entry h = position_requested_lem slots entry h

  reduce-IsReceived :
      (state : State T) (index i : ℕ) (entry : T)
      → index + 1 < u64_mod
      → IsReceived state i
      → IsReceived (reduce state (entry_received index entry)).state i
  reduce-IsReceived state index i entry h (e, g) =
      (e, ground (arith, get_elem?-reduce state index i entry h))

  just-IsReceived :
      (state : State T) (index : ℕ) (entry : T)
      → index + 1 < u64_mod
      → IsReceived (reduce state (entry_received index entry)).state index
  just-IsReceived state index entry h = elim (Option-cases (get_elem? state.slots index)) [
    | inl g ↦ (entry, ground (arith, get_elem?-reduce state index index entry h))
    | inr (requested, g) ↦ (entry, ground (arith, get_elem?-reduce state index index entry h))
    | inr (received old, g) ↦ (old, ground (arith, get_elem?-reduce state index index entry h))
  ]

  -- Some event delivers index `i`.
  abbrev pub is_delivered : ℕ → List (Event T) → Bool
  is_delivered i [] = false
  is_delivered i (entry_received index entry ∷ events) = nat_beq i index || is_delivered i events

  run-IsReceived :
      (log : List T) (state : State T) (events : List (Event T)) (i : ℕ)
      → length log < u64_mod
      → Delivers log events
      → IsReceived state i
      → IsReceived (run state events) i
  run-IsReceived log state [] i room d r = r
  run-IsReceived log state (entry_received index entry ∷ events) i room d r =
      run-IsReceived log (reduce state (entry_received index entry)).state events i room d.1 (
        reduce-IsReceived state index i entry (omega (arith, room, lt_of_get_elem? log index d.0))
          r)

  delivered-IsReceived :
      (log : List T) (state : State T) (events : List (Event T)) (i : ℕ)
      → length log < u64_mod
      → Delivers log events
      → is_delivered i events ≡ true
      → IsReceived (run state events) i
  delivered-IsReceived log state [] i room d r = cc
  delivered-IsReceived log state (entry_received index entry ∷ events) i room d r =
      let next = (reduce state (entry_received index entry)).state in
      let h : index + 1 < u64_mod = omega (arith, room, lt_of_get_elem? log index d.0) in
      elim (Bool-cases (nat_beq i index)) [
        | inl q ↦
            let same : index ≡ i = ground arith in
            run-IsReceived log next events i room d.1
              (subst (IsReceived next) same (just-IsReceived state index entry h))
        | inr q ↦ delivered-IsReceived log next events i room d.1 (ground arith)
      ]

  pub committed_prefix-from :
      (log : List T) (start : State T) (events : List (Event T))
      → length log < u64_mod
      → IsFrom log start.slots
      → Delivers log events
      → ((i : ℕ) → i < length log → is_delivered i events ≡ true)
      → committed_prefix (run start events) ≡ log
  committed_prefix-from log start events room f d all_there =
      let state = run start events in
      let n = next_expected state in
      let full : length log ≤ n = elim (Bool-cases (ltb n (length log))) [
        | inl q ↦
            let (entry, g) =
              delivered-IsReceived log start events n room d (all_there n (ground arith)) in
            absurd (position_requested_lem state.slots entry g)
        | inr q ↦ ground arith
      ] in
      prefix-IsFrom log state.slots (run-IsFrom log start events room d f) ∙ take-all n log full

  -- For a log shorter than 2 ^ 64, once every entry has been delivered at its index, in any order
  -- and with any repetition, starting from no slots, the committed prefix is the whole log.
  pub committed_prefix-eq :
      (log : List T) (page_limit : ℕ) (events : List (Event T))
      → length log < u64_mod
      → Delivers log events
      → ((i : ℕ) → i < length log → is_delivered i events ≡ true)
      → committed_prefix (run (empty page_limit) events) ≡ log
  committed_prefix-eq log page_limit events room d all_there =
      committed_prefix-from log (empty page_limit) events room (λ i entry h. cc) d all_there
