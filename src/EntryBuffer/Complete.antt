-- ===== src/EntryBuffer/Complete.antt =====
-- Complete delivery of the session log to entry_buffer.rs.
use prosthetic_conscience.Prelude.{
  ℕ, zero, suc, ◌<◌, ◌≡◌, refl, ◌∙◌, ap, Bool, true, false, ◌||◌, String, List, [], ◌∷◌, some, Eq,
  ltb, nat_beq, nat_eq, nat_ord, length, get_elem?, take-all, u64_mod, add64_lem, arith, inl, inr,
  Bool-cases, Option-cases, lt_of_get_elem?, ltb→lt,
}
use prosthetic_conscience.Map.{get, without, contains_key-without, contains_key-get}
use prosthetic_conscience.Map.Ordered.{contains_key-update}
use prosthetic_conscience.Json.{Parsed}
use prosthetic_conscience.Types.{Entry}
use prosthetic_conscience.EntryBuffer.{EntryBuffer, new, apply_next, drain, apply_or_buffer_entry}
use prosthetic_conscience.EntryBuffer.Delivery.{
  entries_of, IsFrom, IsSynced, is_known, apply_next_lem, apply_next-IsFrom, removed-IsFrom,
  apply_or_buffer_entry-IsSynced,
}

module _ {Value : Type 0} where
  -- The buffer after entries at their indices, in turn.
  abbrev pub run :
      ⦃eq : Eq Value⦄
      → (Value → Parsed Entry)
      → EntryBuffer Value
      → List (ℕ × Value)
      → EntryBuffer Value
  run from_value b [] = b
  run from_value b ((index, payload) ∷ events) =
      run from_value (apply_or_buffer_entry from_value b index payload).0 events

  -- Every event delivers an entry of the log at its index.
  abbrev pub Delivers : List Value → List (ℕ × Value) → Type 0
  Delivers log [] = Unit
  Delivers log ((index, payload) ∷ events) =
      (get_elem? log index ≡ some payload) × Delivers log events

  -- Some event delivers index `i`.
  abbrev pub is_delivered : ℕ → List (ℕ × Value) → Bool
  is_delivered i [] = false
  is_delivered i ((index, payload) ∷ events) = nat_beq i index || is_delivered i events

module _ {Value : Type 0} ⦃eq : Eq Value⦄ (from_value : Value → Parsed Entry) (log : List Value)
    (room : length log < u64_mod) where
  apply_next-known :
      (b : EntryBuffer Value) (payload : Value) (i : ℕ)
      → b.next_index < length log
      → is_known from_value b i ≡ true
      → is_known from_value
          (apply_next from_value
            (record b { buffered_entries = without b.buffered_entries b.next_index })
            payload).0
          i
        ≡ true
  apply_next-known b payload i lt k =
      let less : EntryBuffer Value = record b {
        buffered_entries = without b.buffered_entries b.next_index;
      } in
      let (e, n, m) = apply_next_lem from_value less payload in
      let j = add64_lem b.next_index 1 (omega (arith, room, lt)) in
      rw (n, j, m) (ground (arith, contains_key-without b.buffered_entries b.next_index i, k))

  drain-known :
      (fuel : ℕ) (b : EntryBuffer Value) (i : ℕ)
      → IsFrom from_value log b
      → is_known from_value b i ≡ true
      → is_known from_value (drain fuel from_value b).0 i ≡ true
  unfolding drain
  drain-known zero b i f k = k
  drain-known (suc fuel) b i f k = elim (Option-cases (get b.buffered_entries b.next_index)) [
    | inl g ↦ rw (drain, g) k
    | inr (payload, g) ↦
        let at = f.buffered b.next_index payload g in
        let less : EntryBuffer Value = record b {
          buffered_entries = without b.buffered_entries b.next_index;
        } in
        rw (drain, g)
          (drain-known fuel (apply_next from_value less payload).0 i
            (apply_next-IsFrom from_value log room less payload at
              (removed-IsFrom from_value log room b f))
            (apply_next-known b payload i (lt_of_get_elem? log b.next_index at) k))
  ]

  apply-known :
      (b : EntryBuffer Value) (index i : ℕ) (payload : Value)
      → get_elem? log index ≡ some payload
      → IsSynced from_value log b
      → (nat_beq i index || is_known from_value b i) ≡ true
      → is_known from_value (apply_or_buffer_entry from_value b index payload).0 i ≡ true
  unfolding apply_or_buffer_entry
  apply-known b index i payload g s k = elim (Bool-cases (ltb index b.next_index)) [
    | inl h ↦ rw h (ground arith)
    | inr h ↦ elim (Bool-cases (ltb b.next_index index)) [
      | inl q ↦
          rw (h, q) (ground (arith, contains_key-update b.buffered_entries index i payload, k))
      | inr q ↦
          let here : index ≡ b.next_index = ground arith in
          let at : get_elem? log b.next_index ≡ some payload = rw here at g in
          let (e, n, m) = apply_next_lem from_value b payload in
          let lt = lt_of_get_elem? log b.next_index at in
          let j = add64_lem b.next_index 1 (omega (arith, room, lt)) in
          rw (h, q)
            (drain-known _ (apply_next from_value b payload).0 i
              (apply_next-IsFrom from_value log room b payload at s.from_log)
              (rw (n, j, m) (ground (arith, k))))
    ]
  ]

  pub run-IsSynced :
      (b : EntryBuffer Value) (events : List (ℕ × Value))
      → Delivers log events
      → IsSynced from_value log b
      → IsSynced from_value log (run from_value b events)
  run-IsSynced b [] d s = s
  run-IsSynced b ((index, payload) ∷ events) d s =
      run-IsSynced (apply_or_buffer_entry from_value b index payload).0 events d.1
        (apply_or_buffer_entry-IsSynced from_value log room b index payload d.0 s)

  run-known :
      (b : EntryBuffer Value) (events : List (ℕ × Value)) (i : ℕ)
      → Delivers log events
      → IsSynced from_value log b
      → (is_delivered i events || is_known from_value b i) ≡ true
      → is_known from_value (run from_value b events) i ≡ true
  run-known b [] i d s k = k
  run-known b ((index, payload) ∷ events) i d s k =
      let next = (apply_or_buffer_entry from_value b index payload).0 in
      run-known next events i d.1
        (apply_or_buffer_entry-IsSynced from_value log room b index payload d.0 s)
        (ground (arith, k, apply-known b index i payload d.0 s))

pub start-IsSynced :
    {Value : Type 0} ⦃eq : Eq Value⦄ (from_value : Value → Parsed Entry) (log : List Value)
    (participant : String)
    → IsSynced from_value log (new participant)
unfolding get
start-IsSynced from_value log participant = record {
  from_log = record { applied = refl; bounded = omega arith; buffered = λ i v h. cc };
  drained = refl;
}

-- For a log shorter than 2 ^ 64, once every payload of the log has been delivered at its index to
-- a new buffer, in any order and with any repetition, the next index is the length of the log and
-- the log of the engine is the entries of all payloads that parse, in the order of the log.
pub run_complete :
    {Value : Type 0} ⦃eq : Eq Value⦄ (from_value : Value → Parsed Entry) (log : List Value)
    (participant : String) (events : List (ℕ × Value))
    → length log < u64_mod
    → Delivers log events
    → ((i : ℕ) → i < length log → is_delivered i events ≡ true)
    → let b = run from_value (new participant) events in
      (b.next_index ≡ length log) × (b.engine.log ≡ entries_of from_value log)
run_complete from_value log participant events room d all_there =
    let start = new participant in
    let b = run from_value start events in
    let s =
      run-IsSynced from_value log room start events d (start-IsSynced from_value log participant) in
    let full : b.next_index ≡ length log = elim (Bool-cases (ltb b.next_index (length log))) [
      | inl q ↦
          let known =
            run-known from_value log room start events b.next_index d
              (start-IsSynced from_value log participant)
              (ground (arith, all_there b.next_index (ltb→lt _ _ q))) in
          absurd
            (ground (arith, known, contains_key-get b.buffered_entries b.next_index, s.drained))
      | inr q ↦ ground (arith, q, s.from_log.bounded)
    ] in
    (full, s.from_log.applied ∙ ap (entries_of from_value) (rw full (take-all _ log (omega arith))))
