-- ===== src/Coordinator/Slots.antt =====
-- The slots of coordinator.rs after an entry has arrived.
use prosthetic_conscience.Prelude.{
  ap, ◌∙◌, le_of_get_elem?, get_elem?-set, ℕ, suc, ◌+◌, ◌-◌, ◌≡◌, ◌≤◌, ◌<◌, refl, List, ◌++◌,
  Option, none, some, ltb, leb, nat_beq, if◌then◌else◌, length, get_elem?, set, replicate, arith,
  inl, inr, Bool-cases, Option-cases, add64, add64_lem, u64_mod, get_elem?-append_left,
  get_elem?-append_right, get_elem?-replicate, get_elem?-ge, lt_of_get_elem?, length-append,
  length-replicate,
}
use prosthetic_conscience.Coordinator.{
  Slot, requested, received, State, entry_received, resize, reduce, sync_to_latest,
  apply_latest_index,
}

module _ {T : Type 0} where
  resize-grown :
      (slots : List (Slot T)) (size : ℕ)
      → length slots < size
      → resize slots size ≡ slots ++ replicate (size - length slots) requested
  unfolding resize
  resize-grown slots size h = ground arith

  get_elem?-resize :
      (slots : List (Slot T)) (size i : ℕ)
      → length slots < size
      → get_elem? (resize slots size) i ≡ (
          if ltb i (length slots)
          then get_elem? slots i
          else if ltb i size
          then some requested
          else none)
  get_elem?-resize slots size i h =
      rw (resize-grown slots size h) (elim (Bool-cases (ltb i (length slots))) [
        | inl q ↦ ground (
          arith,
          get_elem?-append_left slots (replicate (size - length slots) requested) i (ground arith),
        )
        | inr q ↦
            let k = i - length slots in
            let e : i ≡ length slots + k = ground arith in
            let added : List (Slot T) = replicate (size - length slots) requested in
            let missing : Slot T = requested in
            ground (
              arith,
              ap (get_elem? (slots ++ added)) e,
              get_elem?-append_right slots added k,
              get_elem?-replicate (size - length slots) k missing,
              get_elem?-ge added k,
              length-replicate (size - length slots) missing,
            )
      ])

  length-resize :
      (slots : List (Slot T)) (size : ℕ) → length slots < size → length (resize slots size) ≡ size
  length-resize slots size h =
      let added : List (Slot T) = replicate (size - length slots) requested in
      let missing : Slot T = requested in
      rw (resize-grown slots size h)
        (omega (arith, length-append slots added, length-replicate (size - length slots) missing))

  -- What slot `i` holds once `entry` has arrived at `index`.
  abbrev pub slot_after : ℕ → T → ℕ → Option (Slot T) → Option (Slot T)
  slot_after index entry i (some (received old)) = some (received old)
  slot_after index entry i (some requested) =
      if nat_beq i index then some (received entry) else some requested
  slot_after index entry i none =
      if nat_beq i index
      then some (received entry)
      else if ltb i index
      then some requested
      else none

  grown-slot :
      (slots : List (Slot T)) (index i : ℕ) (entry : T)
      → length slots ≤ index
      → get_elem? (set (resize slots (suc index)) index (received entry)) i
        ≡ slot_after index entry i (get_elem? slots i)
  grown-slot slots index i entry h =
      let at = get_elem?-resize slots (suc index) i (omega (arith, h)) in
      get_elem?-set (resize slots (suc index)) index i (received entry)
      ∙ rw (at, length-resize slots (suc index) (omega (arith, h)))
          (elim (Option-cases (get_elem? slots i)) [
            | inl g ↦ rw g (ground (arith, le_of_get_elem? slots i g))
            | inr (requested, g) ↦ rw g (ground (arith, lt_of_get_elem? slots i g))
            | inr (received old, g) ↦ rw g (ground (arith, lt_of_get_elem? slots i g))
          ])

  -- An entry that arrives at an index below the last machine word fills its slot if that is
  -- missing, changes no received slot, and adds missing slots up to its own.
  pub get_elem?-reduce :
      (state : State T) (index i : ℕ) (entry : T)
      → index + 1 < u64_mod
      → get_elem? (reduce state (entry_received index entry)).state.slots i
        ≡ slot_after index entry i (get_elem? state.slots i)
  unfolding reduce
  get_elem?-reduce state index i entry h = elim (Option-cases (get_elem? state.slots index)) [
    | inl g ↦
        let e : add64 index 1 ≡ suc index = omega (arith, add64_lem index 1 h) in
        rw (g, reduce, e)
          (grown-slot state.slots index i entry (le_of_get_elem? state.slots index g))
    | inr (requested, g) ↦ ground (
      arith,
      get_elem?-set state.slots index i (received entry),
      lt_of_get_elem? state.slots index g,
      le_of_get_elem? state.slots i,
    )
    | inr (received old, g) ↦
        ground (arith, lt_of_get_elem? state.slots index g, le_of_get_elem? state.slots i)
  ]

  -- Learning of a latest index below the last machine word keeps every slot and adds missing ones
  -- up to that index.
  pub get_elem?-sync_to_latest :
      (state : State T) (latest i : ℕ)
      → latest + 1 < u64_mod
      → get_elem? (sync_to_latest state (some latest)).state.slots i
        ≡ elim (get_elem? state.slots i) [
          | some slot ↦ some slot
          | none ↦ if leb i latest then some requested else none
        ]
  unfolding sync_to_latest apply_latest_index
  get_elem?-sync_to_latest state latest i h =
      let e : add64 latest 1 ≡ suc latest = omega (arith, add64_lem latest 1 h) in
      elim (Bool-cases (leb (length state.slots) latest)) [
        | inl q ↦
            rw (q, e, get_elem?-resize state.slots (suc latest) i (ground arith))
              (elim (Option-cases (get_elem? state.slots i)) [
                | inl g ↦ rw g (ground (arith, le_of_get_elem? state.slots i g))
                | inr (slot, g) ↦ rw g (ground (arith, lt_of_get_elem? state.slots i g))
              ])
        | inr q ↦ rw q (elim (Option-cases (get_elem? state.slots i)) [
          | inl g ↦ rw g (ground (arith, le_of_get_elem? state.slots i g))
          | inr (slot, g) ↦ rw g refl
        ])
      ]
