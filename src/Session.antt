-- ===== src/Session.antt =====
-- crates/prosthetic-conscience/src/gateway/session/kernel.rs: one session of the gateway, an
-- append-only log of entries and its subscribers with their deadlines. `V` stands for the JSON
-- values, which the kernel only stores and passes on.
pub mod Entries
pub mod Subscribers
use prosthetic_conscience.Prelude.{
  ℕ, zero, ◌+◌, min, Bool, List, [], ◌∷◌, ◌++◌, Option, none, some, Eq, map, length, is_empty,
  get_elem?, take, drop, ltb, leb, if◌then◌else◌, add64, ◌-◌,
}
use prosthetic_conscience.Map.{Map, get, contains_key, keys, update, without}

-- The log, behind its operations.
pub record AppendLog (V : Type 0) : Type 0 where
  pub entries : List V

module _ {V : Type 0} where
  abbrev pub new : AppendLog V
  new = record { entries = [] }

  unfoldable pub append : AppendLog V → V → AppendLog V
  append log value = record { entries = log.entries ++ value ∷ [] }

  unfoldable pub get_entry : AppendLog V → ℕ → Option V
  get_entry log index = get_elem? log.entries index

  unfoldable pub len : AppendLog V → ℕ
  len log = length log.entries

  -- `entries.get(start..end)`: nothing where the range is reversed or ends past the log.
  unfoldable pub get_range : List V → ℕ → ℕ → Option (List V)
  get_range entries start end =
      if ltb end start
      then none
      else if ltb (length entries) end
      then none
      else some (take (end - start) (drop start entries))

  unfoldable pub slice : AppendLog V → ℕ → ℕ → List V
  unfolding get_range
  slice log from limit =
      let start = min from (length log.entries) in
      let end = min (add64 start limit) (length log.entries) in
      elim (get_range log.entries start end) [ none ↦ [] | some range ↦ range ]

pub record State (SubId V : Type 0) : Type 0 where
  pub entries : AppendLog V
  pub subscribers : Map SubId ℕ
  pub subscriber_ttl : ℕ

pub data Event (SubId V : Type 0) : Type 0 where
  entry_appended : (payload : V) → Event SubId V
  subscribed : (subscriber_id : SubId) (tick : ℕ) → Event SubId V
  unsubscribed : (subscriber_id : SubId) → Event SubId V
  ticked : (tick : ℕ) → Event SubId V
  subscriber_heartbeat : (subscriber_id : SubId) (tick : ℕ) → Event SubId V

unfoldable pub sub_ids : {SubId V : Type 0} → Event SubId V → List SubId
sub_ids (entry_appended payload) = []
sub_ids (subscribed subscriber_id tick) = subscriber_id ∷ []
sub_ids (unsubscribed subscriber_id) = subscriber_id ∷ []
sub_ids (ticked tick) = []
sub_ids (subscriber_heartbeat subscriber_id tick) = subscriber_id ∷ []

pub data Effect (SubId V : Type 0) : Type 0 where
  notify_subscribers : (entry_index : ℕ) (payload : V) (subscribers : List SubId) → Effect SubId V
  subscriber_removed : (subscriber_id : SubId) → Effect SubId V

pub record Transition (SubId V : Type 0) : Type 0 where
  pub state : State SubId V
  pub effects : List (Effect SubId V)

module _ {SubId V : Type 0} where
  -- `State::default()`.
  abbrev pub default : State SubId V
  default = record { entries = new; subscribers = []; subscriber_ttl = 0 }

module _ {SubId : Type 0} ⦃e : Eq SubId⦄ where
  -- The body of the loop over the subscribers in the `Tick` arm, and the loop.
  pub expire_one : ℕ → SubId → ℕ → List SubId × Map SubId ℕ → List SubId × Map SubId ℕ
  expire_one tick sub_id deadline (expired, surviving) =
      if leb deadline tick
      then (expired ++ sub_id ∷ [], without surviving sub_id)
      else (expired, surviving)

  pub expire : ℕ → Map SubId ℕ → List SubId × Map SubId ℕ → List SubId × Map SubId ℕ
  unfolding expire_one
  expire tick [] acc = acc
  expire tick ((sub_id, deadline) ∷ rest) acc =
      expire tick rest (expire_one tick sub_id deadline acc)

module _ {SubId V : Type 0} ⦃e : Eq SubId⦄ where
  unfoldable pub reduce : State SubId V → Event SubId V → Transition SubId V
  unfolding append len expire
  reduce state (entry_appended payload) = record {
    state = record state { entries = append state.entries payload };
    effects =
        if is_empty state.subscribers
        then []
        else notify_subscribers (len state.entries) payload (keys state.subscribers) ∷ [];
  }
  reduce state (subscribed subscriber_id tick) = record {
    state = record state {
      subscribers = update state.subscribers subscriber_id (add64 tick state.subscriber_ttl);
    };
    effects = [];
  }
  reduce state (unsubscribed subscriber_id) =
      if contains_key state.subscribers subscriber_id
      then record {
        state = record state { subscribers = without state.subscribers subscriber_id };
        effects = subscriber_removed subscriber_id ∷ [];
      }
      else record { state = state; effects = [] }
  reduce state (ticked tick) =
      let (expired, surviving) = expire tick state.subscribers ([], state.subscribers) in
      record {
        state = record state { subscribers = surviving };
        effects = map subscriber_removed expired;
      }
  reduce state (subscriber_heartbeat subscriber_id tick) =
      if contains_key state.subscribers subscriber_id
      then record {
        state = record state {
          subscribers = update state.subscribers subscriber_id (add64 tick state.subscriber_ttl);
        };
        effects = [];
      }
      else record { state = state; effects = [] }

  -- The session after a history of events.
  pub run : State SubId V → List (Event SubId V) → State SubId V
  run state [] = state
  run state (event ∷ events) = run (reduce state event).state events
