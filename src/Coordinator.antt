-- ===== src/Coordinator.antt =====
-- crates/consensus/src/coordinator.rs: which entries of the session log have arrived, and what to
-- fetch. The loops over an index are recursion on fuel over the slots from that index on.
pub mod Fetches
pub mod Slots
pub mod Prefix
use prosthetic_conscience.Prelude.{
  ℕ, zero, suc, ◌+◌, ◌-◌, Bool, List, [], ◌∷◌, ◌++◌, Option, none, some, ltb, leb, nat_beq,
  if◌then◌else◌, length, get_elem?, set, take, drop, replicate, min, add64,
}

pub data Slot (T : Type 0) : Type 0 where
  requested : Slot T
  received : T → Slot T

pub record State (T : Type 0) : Type 0 where
  pub slots : List (Slot T)
  pub page_limit : ℕ

pub data Event (T : Type 0) : Type 0 where
  entry_received : (index : ℕ) (entry : T) → Event T

pub data Effect : Type 0 where
  fetch_missing : (from limit : ℕ) → Effect

pub record Transition (T : Type 0) : Type 0 where
  pub state : State T
  pub effects : List Effect

pub data InitResult (T : Type 0) : Type 0 where
  invalid_page_limit : InitResult T
  ok : Transition T → InitResult T

-- The pages that fetch the indices of `from .. end`. With a page limit of 0, which `init` refuses,
-- the loop of the source would not end; here it ends with the fuel.
unfoldable pub pages : ℕ → ℕ → ℕ → ℕ → List Effect
pages zero from end page_limit = []
pages (suc fuel) from end page_limit =
    let limit = min (end - from) page_limit in
    let rest = pages fuel (from + limit) end page_limit in
    if ltb from end then fetch_missing from limit ∷ rest else []

module _ {T : Type 0} where
  abbrev pub empty : ℕ → State T
  empty page_limit = record { slots = []; page_limit = page_limit }

  -- The first missing slot, or the length if none is missing.
  unfoldable pub position_requested : List (Slot T) → ℕ
  position_requested [] = 0
  position_requested (requested ∷ slots) = 0
  position_requested (received entry ∷ slots) = suc (position_requested slots)

  abbrev pub next_expected : State T → ℕ
  next_expected state = position_requested state.slots

  unfoldable pub received_entries : List (Slot T) → List T
  received_entries [] = []
  received_entries (requested ∷ slots) = received_entries slots
  received_entries (received entry ∷ slots) = entry ∷ received_entries slots

  abbrev pub committed_prefix : State T → List T
  committed_prefix state = received_entries (take (next_expected state) state.slots)

  -- `Vec::resize_with`, filling up with requested slots.
  unfoldable pub resize : List (Slot T) → ℕ → List (Slot T)
  resize slots size =
      if leb size (length slots)
      then take size slots
      else slots ++ replicate (size - length slots) requested

  -- How many slots from here on are requested without a gap: the inner loop of
  -- `plan_missing_fetches`.
  unfoldable pub requested_run : List (Slot T) → ℕ
  requested_run [] = 0
  requested_run (requested ∷ slots) = suc (requested_run slots)
  requested_run (received entry ∷ slots) = 0

  -- `slots` are the slots from `index` on.
  unfoldable pub plan_from : ℕ → ℕ → List (Slot T) → ℕ → List Effect
  plan_from zero index slots page_limit = []
  plan_from (suc fuel) index [] page_limit = []
  plan_from (suc fuel) index (received entry ∷ slots) page_limit =
      plan_from fuel (suc index) slots page_limit
  plan_from (suc fuel) index (requested ∷ slots) page_limit =
      let size = suc (requested_run slots) in
      pages size index (index + size) page_limit
      ++ plan_from fuel (index + size) (drop (requested_run slots) slots) page_limit

  abbrev pub plan_missing_fetches : State T → List Effect
  plan_missing_fetches state = plan_from (length state.slots) 0 state.slots state.page_limit

  unfoldable pub apply_latest_index : State T → ℕ → State T
  apply_latest_index state latest =
      if leb (length state.slots) latest
      then record state { slots = resize state.slots (add64 latest 1) }
      else state

  unfoldable pub sync_to_latest : State T → Option ℕ → Transition T
  sync_to_latest state (some latest) =
      let next = apply_latest_index state latest in
      record { state = next; effects = plan_missing_fetches next }
  sync_to_latest state none = record { state = state; effects = [] }

  unfoldable pub init : ℕ → Option ℕ → InitResult T
  init page_limit latest =
      if nat_beq page_limit 0
      then invalid_page_limit
      else ok (sync_to_latest (empty page_limit) latest)

  unfoldable pub reduce : State T → Event T → Transition T
  reduce state (entry_received index entry) = elim (get_elem? state.slots index) [
    | some (received old) ↦ record { state = state; effects = [] }
    | some requested ↦ record {
      state = record state { slots = set state.slots index (received entry) };
      effects = [];
    }
    | none ↦
        let grown : State T = record state {
          slots = set (resize state.slots (add64 index 1)) index (received entry);
        } in
        record { state = grown; effects = plan_missing_fetches grown }
  ]

  abbrev pub run : State T → List (Event T) → State T
  run state [] = state
  run state (event ∷ events) = run (reduce state event).state events
