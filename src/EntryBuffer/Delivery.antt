-- ===== src/EntryBuffer/Delivery.antt =====
-- Entries of the session log that reach entry_buffer.rs in any order.
use mathlib.Core.List.{append-nil, append_assoc}
use prosthetic_conscience.Prelude.{
  ℕ, zero, suc, ◌+◌, ◌≤◌, ◌<◌, ◌≡◌, refl, sym, ◌∙◌, ap, Bool, ◌||◌, List, [], ◌∷◌, ◌++◌, none, some,
  Eq, ltb, nat_beq, nat_eq, nat_ord, length, get_elem?, take, u64_mod, add64, add64_lem, arith, inl,
  inr, Bool-cases, Option-cases, lt_of_get_elem?,
}
use prosthetic_conscience.Map.{Map, get, contains_key, without, get-without}
use prosthetic_conscience.Map.Ordered.{get-update}
use prosthetic_conscience.Json.{Parsed, parsed, failed}
use prosthetic_conscience.Types.{Entry}
use prosthetic_conscience.EntryBuffer.{
  EntryBuffer, note_submission_payload, append_parsed, apply_payload, apply_next, drain,
  apply_or_buffer_entry,
}

length-without : {V : Type 0} (m : Map ℕ V) (k : ℕ) → length (without m k) ≤ length m
unfolding without
length-without [] k = omega arith
length-without ((j, v) ∷ m) k = ground (arith, length-without m k)

length-without_lt :
    {V : Type 0} (m : Map ℕ V) (k : ℕ) {v : V} → get m k ≡ some v → length (without m k) < length m
unfolding get without
length-without_lt [] k g = cc
length-without_lt ((j, w) ∷ m) k g = elim (Bool-cases (nat_beq j k)) [
  | inl h ↦ rw h (omega (arith, length-without m k))
  | inr h ↦ rw h (omega (arith, length-without_lt m k (rw h at g)))
]

take-snoc :
    {A : Type 0} (log : List A) (n : ℕ) {a : A}
    → get_elem? log n ≡ some a
    → take (n + 1) log ≡ take n log ++ a ∷ []
take-snoc [] n g = cc
take-snoc (x ∷ log) zero {a} g = ground arith
take-snoc (x ∷ log) (suc n) {a} g =
    let e : suc n + 1 ≡ suc (n + 1) = omega arith in rw e (ap (◌∷◌ x) (take-snoc log n g))

module _ {Value : Type 0} ⦃eq : Eq Value⦄ (from_value : Value → Parsed Entry) where
  abbrev pub entry_of : Parsed Entry → List Entry
  entry_of (parsed entry) = entry ∷ []
  entry_of (failed error) = []

  -- The entries that the payloads of a log hold; the others are skipped.
  abbrev pub entries_of : List Value → List Entry
  entries_of [] = []
  entries_of (payload ∷ log) = entry_of (from_value payload) ++ entries_of log

  entries_of-append :
      (xs : List Value) (payload : Value)
      → entries_of (xs ++ payload ∷ []) ≡ entries_of xs ++ entry_of (from_value payload)
  entries_of-append [] payload = append-nil (entry_of (from_value payload))
  entries_of-append (x ∷ xs) payload =
      ap (◌++◌ (entry_of (from_value x))) (entries_of-append xs payload)
      ∙ sym (append_assoc (entry_of (from_value x)) (entries_of xs) (entry_of (from_value payload)))

  -- What the engine holds is what the log holds below the next index, and what is buffered stands
  -- in the log at its index.
  pub record IsFrom (log : List Value) (b : EntryBuffer Value) : Type 0 where
    pub applied : b.engine.log ≡ entries_of (take b.next_index log)
    pub bounded : b.next_index ≤ length log
    pub buffered :
        (i : ℕ) (payload : Value)
        → get b.buffered_entries i ≡ some payload
        → get_elem? log i ≡ some payload

  -- And the entry at the next index is not buffered.
  pub record IsSynced (log : List Value) (b : EntryBuffer Value) : Type 0 where
    pub from_log : IsFrom log b
    pub drained : get b.buffered_entries b.next_index ≡ none

  -- The entry at an index has been applied or buffered.
  abbrev pub is_known : EntryBuffer Value → ℕ → Bool
  is_known b i = ltb i b.next_index || contains_key b.buffered_entries i

  note_submission_payload_lem :
      (b : EntryBuffer Value) (payload : Value)
      → let next = note_submission_payload b payload in
        (next.engine ≡ b.engine)
        × (next.next_index ≡ b.next_index)
        × (next.buffered_entries ≡ b.buffered_entries)
  unfolding note_submission_payload
  note_submission_payload_lem b payload = elim (Option-cases b.pending_submission) [
    | inl h ↦ rw h (refl, refl, refl)
    | inr (pending, h) ↦ rw h (refl, refl, refl)
  ]

  append_parsed_lem :
      (b : EntryBuffer Value) (p : Parsed Entry)
      → let next = (append_parsed b p).0 in
        (next.engine.log ≡ b.engine.log ++ entry_of p)
        × (next.next_index ≡ b.next_index)
        × (next.buffered_entries ≡ b.buffered_entries)
  append_parsed_lem b (parsed entry) = (refl, refl, refl)
  append_parsed_lem b (failed error) = (sym (append-nil b.engine.log), refl, refl)

  pub apply_next_lem :
      (b : EntryBuffer Value) (payload : Value)
      → let next = (apply_next from_value b payload).0 in
        (next.engine.log ≡ b.engine.log ++ entry_of (from_value payload))
        × (next.next_index ≡ add64 b.next_index 1)
        × (next.buffered_entries ≡ b.buffered_entries)
  unfolding apply_next apply_payload
  apply_next_lem b payload =
      let noted = note_submission_payload b payload in
      let (e, i, m) = note_submission_payload_lem b payload in
      let (f, j, k) = append_parsed_lem noted (from_value payload) in
      (f ∙ ap (λ x. x.log ++ entry_of (from_value payload)) e, ap (λ x. add64 x 1) (j ∙ i), k ∙ m)

  module _ (log : List Value) (room : length log < u64_mod) where
    pub apply_next-IsFrom :
        (b : EntryBuffer Value) (payload : Value)
        → get_elem? log b.next_index ≡ some payload
        → IsFrom log b
        → IsFrom log (apply_next from_value b payload).0
    apply_next-IsFrom b payload g f =
        let (e, i, m) = apply_next_lem b payload in
        let lt = lt_of_get_elem? log b.next_index g in
        let j = add64_lem b.next_index 1 (omega (arith, room, lt)) in
        record {
          applied =
              rw (e, i, j, take-snoc log b.next_index g, f.applied)
                (sym (entries_of-append (take b.next_index log) payload));
          bounded = rw (i, j) (omega (arith, lt));
          buffered = λ k v h. f.buffered k v (rw m at h);
        }

    pub removed-IsFrom :
        (b : EntryBuffer Value)
        → IsFrom log b
        → IsFrom log (record b { buffered_entries = without b.buffered_entries b.next_index })
    removed-IsFrom b f = record {
      applied = f.applied;
      bounded = f.bounded;
      buffered =
          λ i v h. ground (arith, get-without b.buffered_entries b.next_index i, f.buffered i v, h);
    }

    drain-IsSynced :
        (fuel : ℕ) (b : EntryBuffer Value)
        → length b.buffered_entries ≤ fuel
        → IsFrom log b
        → IsSynced log (drain fuel from_value b).0
    unfolding drain
    drain-IsSynced zero b h f = record {
      from_log = f;
      drained = elim (Option-cases (get b.buffered_entries b.next_index)) [
        | inl g ↦ g
        | inr (payload, g) ↦
            absurd (omega (arith, h, length-without_lt b.buffered_entries b.next_index g))
      ];
    }
    drain-IsSynced (suc fuel) b h f = elim (Option-cases (get b.buffered_entries b.next_index)) [
      | inl g ↦ rw (drain, g) (record { from_log = f; drained = g })
      | inr (payload, g) ↦
          let less : EntryBuffer Value = record b {
            buffered_entries = without b.buffered_entries b.next_index;
          } in
          let next = (apply_next from_value less payload).0 in
          let (e, i, m) = apply_next_lem less payload in
          rw (drain, g)
            (drain-IsSynced fuel next
              (rw m (omega (arith, h, length-without_lt b.buffered_entries b.next_index g)))
              (apply_next-IsFrom less payload (f.buffered b.next_index payload g)
                (removed-IsFrom b f)))
    ]

    -- For a log shorter than 2 ^ 64, an entry of the log that is delivered at its index leaves the
    -- buffer synced with the log, whether it is old, early or expected.
    pub apply_or_buffer_entry-IsSynced :
        (b : EntryBuffer Value) (index : ℕ) (payload : Value)
        → get_elem? log index ≡ some payload
        → IsSynced log b
        → IsSynced log (apply_or_buffer_entry from_value b index payload).0
    unfolding apply_or_buffer_entry
    apply_or_buffer_entry-IsSynced b index payload g s =
        elim (Bool-cases (ltb index b.next_index)) [
          | inl h ↦ rw h s
          | inr h ↦ elim (Bool-cases (ltb b.next_index index)) [
            | inl k ↦
                rw (h, k)
                  (record {
                    from_log = record {
                      applied = s.from_log.applied;
                      bounded = s.from_log.bounded;
                      buffered = λ i v q. ground (
                        arith,
                        get-update b.buffered_entries index i payload,
                        s.from_log.buffered i v,
                        q,
                        g,
                      );
                    };
                    drained = ground (
                      arith,
                      get-update b.buffered_entries index b.next_index payload,
                      s.drained,
                    );
                  })
            | inr k ↦
                let here : index ≡ b.next_index = ground arith in
                rw (h, k)
                  (drain-IsSynced _ (apply_next from_value b payload).0 (omega arith)
                    (apply_next-IsFrom b payload (rw here at g) s.from_log))
          ]
        ]
