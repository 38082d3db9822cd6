-- ===== src/Gateway/Sweep.antt =====
-- crates/prosthetic-conscience/src/gateway/kernel.rs: the search for a worker, the
-- loops and folds of the `Tick` arm, and the effects that several arms share.
use prosthetic_conscience.Prelude.{
  ℕ, List, [], ◌∷◌, ◌++◌, Option, none, some, map, Eq, contains, is_empty, leb, ltb, if◌then◌else◌,
  String, string_eq,
}
use prosthetic_conscience.Map.{Map, get, update, without, filter_entries, keys}
use prosthetic_conscience.Protocol.{Capability, capability_eq}
use prosthetic_conscience.Session
use prosthetic_conscience.Gateway.State.{
  WorkerEntry, SessionId, Effect, send_client_error, send_client_done, session_effect,
  session_expired,
}

-- `first_capable_worker_id`: the first match in the order of the keys.
module _ {WId : Type 0} where
  unfoldable pub find_capable : Map WId WorkerEntry → Capability → Option WId
  find_capable [] required = none
  find_capable ((worker_id, entry) ∷ rest) required =
      if contains entry.capabilities required then some worker_id else find_capable rest required

  unfoldable pub live_workers : ℕ → Map WId WorkerEntry → Map WId WorkerEntry
  live_workers tick = filter_entries (λ _ entry. ltb tick entry.deadline)

module _ {SId : Type 0} where
  unfoldable pub expired_streams : ℕ → Map SId ℕ → List SId
  expired_streams tick streams = keys (filter_entries (λ _ deadline. leb deadline tick) streams)

-- The error and the end that a refused or failed stream gets.
module _ {WId SId SubId V : Type 0} where
  unfoldable pub fail_stream : SId → String → List (Effect WId SId SubId V)
  fail_stream client_stream_id message =
      send_client_error client_stream_id message ∷ send_client_done client_stream_id ∷ []

  unfoldable pub timeouts : List SId → List (Effect WId SId SubId V)
  unfolding fail_stream
  timeouts [] = []
  timeouts (sid ∷ sids) = fail_stream sid "stream timed out" ++ timeouts sids

module _ {SubId V : Type 0} where
  unfoldable pub expired_sessions : Map SessionId (Session.State SubId V) → List SessionId
  expired_sessions sessions = keys (filter_entries (λ _ s. is_empty s.subscribers) sessions)

-- The loop of the `Tick` arm over the sessions, and the fold that removes those without subscribers.
module _ {WId SId SubId V : Type 0} ⦃eb : Eq SubId⦄ where
  unfoldable pub tick_sessions :
      ℕ
      → Map SessionId (Session.State SubId V)
      → Map SessionId (Session.State SubId V) × List (Effect WId SId SubId V)
      → Map SessionId (Session.State SubId V) × List (Effect WId SId SubId V)
  tick_sessions tick [] acc = acc
  tick_sessions tick ((session_id, session_state) ∷ rest) (sessions, effects) =
      let t = Session.reduce session_state (Session.ticked tick) in
      tick_sessions tick rest
        (update sessions session_id t.state, effects ++ map session_effect t.effects)

  unfoldable pub expire_session :
      SessionId
      → Map SessionId (Session.State SubId V) × List (Effect WId SId SubId V)
      → Map SessionId (Session.State SubId V) × List (Effect WId SId SubId V)
  expire_session session_id (sessions, effects) = elim (get sessions session_id) [
    | none ↦ (sessions, effects)
    | some s ↦
        (without sessions session_id, effects ++ session_expired session_id s.entries.entries ∷ [])
  ]

  unfoldable pub expire_sessions :
      List SessionId
      → Map SessionId (Session.State SubId V) × List (Effect WId SId SubId V)
      → Map SessionId (Session.State SubId V) × List (Effect WId SId SubId V)
  unfolding expire_session
  expire_sessions [] acc = acc
  expire_sessions (session_id ∷ ids) acc = expire_sessions ids (expire_session session_id acc)

  -- What an event for an unknown session cleans up.
  unfoldable pub cleanup : Session.Event SubId V → List (Effect WId SId SubId V)
  cleanup (Session.entry_appended payload) = []
  cleanup (Session.subscribed k tick) = session_effect (Session.subscriber_removed k) ∷ []
  cleanup (Session.unsubscribed k) = session_effect (Session.subscriber_removed k) ∷ []
  cleanup (Session.ticked tick) = []
  cleanup (Session.subscriber_heartbeat k tick) = session_effect (Session.subscriber_removed k) ∷ []
