-- ===== src/Coordinator/Fetches.antt =====
-- `plan_missing_fetches` of coordinator.rs: what it asks for.
use prosthetic_conscience.Prelude.{
  sym, ap, ℕ, zero, suc, ◌+◌, ◌-◌, ◌≡◌, ◌≤◌, ◌<◌, refl, Bool, true, false, ◌&&◌, List, [], ◌∷◌,
  ◌++◌, Option, some, ltb, leb, if◌then◌else◌, length, get_elem?, drop, arith, min, inl, inr,
  length-drop, get_elem?-drop, Bool-cases,
}
use native.Mathlib.Nat.{zero-add}
use prosthetic_conscience.Coordinator.{
  Slot, requested, received, State, Effect, fetch_missing, pages, requested_run, plan_from,
  plan_missing_fetches,
}

-- How many of the fetches ask for index `i`.
abbrev pub asked : List Effect → ℕ → ℕ
asked [] i = 0
asked (fetch_missing from limit ∷ effects) i =
    (if leb from i && ltb i (from + limit) then 1 else 0) + asked effects i

-- Every fetch asks for something, for at most `page_limit` entries, and stays below `size`.
abbrev pub AllPages : ℕ → ℕ → List Effect → Type 0
AllPages page_limit size [] = Unit
AllPages page_limit size (fetch_missing from limit ∷ effects) =
    (0 < limit) × (limit ≤ page_limit) × (from + limit ≤ size) × AllPages page_limit size effects

asked-append : (xs ys : List Effect) (i : ℕ) → asked (xs ++ ys) i ≡ asked xs i + asked ys i
asked-append [] ys i = omega arith
asked-append (fetch_missing from limit ∷ xs) ys i = ground (arith, asked-append xs ys i)

AllPages-append :
    (page_limit size : ℕ) (xs ys : List Effect)
    → AllPages page_limit size xs
    → AllPages page_limit size ys
    → AllPages page_limit size (xs ++ ys)
AllPages-append page_limit size [] ys a b = b
AllPages-append page_limit size (fetch_missing from limit ∷ xs) ys a b =
    (a.0, a.1, a.2, AllPages-append page_limit size xs ys a.3 b)

asked-pages :
    (fuel from end page_limit i : ℕ)
    → 0 < page_limit
    → end - from ≤ fuel
    → asked (pages fuel from end page_limit) i ≡ (if leb from i && ltb i end then 1 else 0)
unfolding pages
asked-pages zero from end page_limit i p e = ground arith
asked-pages (suc fuel) from end page_limit i p e =
    let limit = min (end - from) page_limit in
    elim (Bool-cases (ltb from end)) [
      | inl h ↦ ground (arith, asked-pages fuel (from + limit) end page_limit i p (ground arith))
      | inr h ↦ ground arith
    ]

pages-AllPages :
    (fuel from end page_limit size : ℕ)
    → 0 < page_limit
    → end ≤ size
    → AllPages page_limit size (pages fuel from end page_limit)
unfolding pages
pages-AllPages zero from end page_limit size p e = tt
pages-AllPages (suc fuel) from end page_limit size p e =
    let limit = min (end - from) page_limit in
    elim (Bool-cases (ltb from end)) [
      | inl h ↦ rw h (
        ground arith,
        ground arith,
        ground arith,
        pages-AllPages fuel (from + limit) end page_limit size p e,
      )
      | inr h ↦ rw h tt
    ]

module _ {T : Type 0} where
  abbrev pub is_missing : Option (Slot T) → Bool
  is_missing (some requested) = true
  is_missing _ = false

  run-missing :
      (slots : List (Slot T)) (j : ℕ) → j < requested_run slots → get_elem? slots j ≡ some requested
  unfolding requested_run
  run-missing [] j h = ground arith
  run-missing (received entry ∷ slots) j h = ground arith
  run-missing (requested ∷ slots) zero h = refl
  run-missing (requested ∷ slots) (suc j) h = run-missing slots j (omega (arith, h))

  run-length : (slots : List (Slot T)) → requested_run slots ≤ length slots
  unfolding requested_run
  run-length [] = omega arith
  run-length (received entry ∷ slots) = omega arith
  run-length (requested ∷ slots) = omega (arith, run-length slots)

  missing : List (Slot T) → ℕ → ℕ
  missing slots i = if is_missing (get_elem? slots i) then 1 else 0

  asked-below :
      (fuel index : ℕ) (slots : List (Slot T)) (page_limit i : ℕ)
      → 0 < page_limit
      → i < index
      → asked (plan_from fuel index slots page_limit) i ≡ 0
  unfolding plan_from
  asked-below zero index slots page_limit i p h = refl
  asked-below (suc fuel) index [] page_limit i p h = refl
  asked-below (suc fuel) index (received entry ∷ slots) page_limit i p h =
      asked-below fuel (suc index) slots page_limit i p (omega (arith, h))
  asked-below (suc fuel) index (requested ∷ slots) page_limit i p h =
      let n = requested_run slots in
      let size = suc n in
      ground (
        arith,
        asked-append (pages size index (index + size) page_limit)
            (plan_from fuel (index + size) (drop n slots) page_limit) i,
        asked-pages size index (index + size) page_limit i p (omega arith),
        asked-below fuel (index + size) (drop n slots) page_limit i p (omega (arith, h)),
      )

  asked-plan_from :
      (fuel index : ℕ) (slots : List (Slot T)) (page_limit j : ℕ)
      → 0 < page_limit
      → length slots ≤ fuel
      → asked (plan_from fuel index slots page_limit) (index + j) ≡ missing slots j
  unfolding plan_from missing
  asked-plan_from zero index [] page_limit j p e = ground arith
  asked-plan_from zero index (slot ∷ slots) page_limit j p e = ground arith
  asked-plan_from (suc fuel) index [] page_limit j p e = ground arith
  asked-plan_from (suc fuel) index (received entry ∷ slots) page_limit zero p e =
      asked-below fuel (suc index) slots page_limit (index + 0) p (omega arith)
  asked-plan_from (suc fuel) index (received entry ∷ slots) page_limit (suc j) p e =
      let shift : index + suc j ≡ suc index + j = omega arith in
      rw shift (asked-plan_from fuel (suc index) slots page_limit j p (omega (arith, e)))
  asked-plan_from (suc fuel) index (requested ∷ slots) page_limit j p e =
      let n = requested_run slots in
      let size = suc n in
      let parts =
        asked-append (pages size index (index + size) page_limit)
          (plan_from fuel (index + size) (drop n slots) page_limit) (index + j) in
      let here = asked-pages size index (index + size) page_limit (index + j) p (omega arith) in
      elim (Bool-cases (ltb j size)) [
        | inl q ↦ ground (
          arith,
          parts,
          here,
          asked-below fuel (index + size) (drop n slots) page_limit (index + j) p (ground arith),
          run-missing (requested ∷ slots) j (unfold requested_run in ground arith),
        )
        | inr q ↦
            let k = j - size in
            let e1 : j ≡ suc (n + k) = ground arith in
            let e2 : index + j ≡ index + size + k = ground arith in
            let rest =
              asked-plan_from fuel (index + size) (drop n slots) page_limit k p
                (omega (arith, e, length-drop n slots)) in
            ground (
              arith,
              parts,
              here,
              rw (sym e2) at rest,
              get_elem?-drop n slots k,
              ap (get_elem? (requested ∷ slots)) e1,
            )
      ]

  AllPages-plan_from :
      (fuel index : ℕ) (slots : List (Slot T)) (page_limit size : ℕ)
      → 0 < page_limit
      → index + length slots ≤ size
      → AllPages page_limit size (plan_from fuel index slots page_limit)
  unfolding plan_from
  AllPages-plan_from zero index slots page_limit size p e = tt
  AllPages-plan_from (suc fuel) index [] page_limit size p e = tt
  AllPages-plan_from (suc fuel) index (received entry ∷ slots) page_limit size p e =
      AllPages-plan_from fuel (suc index) slots page_limit size p (omega (arith, e))
  AllPages-plan_from (suc fuel) index (requested ∷ slots) page_limit size p e =
      let n = requested_run slots in
      AllPages-append page_limit size (pages (suc n) index (index + suc n) page_limit)
        (plan_from fuel (index + suc n) (drop n slots) page_limit)
        (pages-AllPages (suc n) index (index + suc n) page_limit size p
          (omega (arith, e, run-length slots)))
        (AllPages-plan_from fuel (index + suc n) (drop n slots) page_limit size p
          (omega (arith, e, run-length slots, length-drop n slots)))

  -- With a page limit above 0, the fetches that are planned ask for a missing slot once and for
  -- no other index, each for at least one and at most a page of slots that exist.
  pub plan_exact :
      (state : State T) (i : ℕ)
      → 0 < state.page_limit
      → (asked (plan_missing_fetches state) i
          ≡ (if is_missing (get_elem? state.slots i) then 1 else 0))
        × AllPages state.page_limit (length state.slots) (plan_missing_fetches state)
  unfolding missing
  plan_exact state i p =
      let at =
        asked-plan_from (length state.slots) 0 state.slots state.page_limit i p (omega arith) in
      (
        rw (zero-add i) at at,
        AllPages-plan_from (length state.slots) 0 state.slots state.page_limit (length state.slots)
            p (omega arith),
      )
