-- ===== src/Gateway/Streams.antt =====
-- The life of a client stream in gateway/kernel.rs, from its dispatch until its end is sent.
use mathlib.Core.List.{append-nil}
use prosthetic_conscience.Prelude.{
  ℕ, ◌≡◌, refl, ap, ◌∙◌, inl, inr, Bool, true, false, not, ◌&&◌, ◌||◌, List, [], ◌∷◌, ◌++◌, none,
  arith, Eq, ◌==◌, Ord, Display, contains, add64, if◌then◌else◌, Option-cases, map, any, string_eq,
}
use prosthetic_conscience.Map.{
  Map, IsUnique, get, contains_key, update, contains_key-update, contains_key-without,
  contains_key-get,
}
use prosthetic_conscience.Map.Deadlines.{due, contains-due, keys-filter_entries, get-without_all}
use prosthetic_conscience.Session
use prosthetic_conscience.Gateway.State.{
  GatewayState, SessionId, Event, Effect, Hashing, http_chat_requested, worker_registered,
  assignment_cleared, assignment_failed, worker_heartbeat, stream_heartbeat, ticked,
  session_requested, session_event, dispatch_job, send_client_error, send_client_done,
  session_effect, session_created, session_expired, protocol_violation,
}
use prosthetic_conscience.Gateway.Sweep.{
  expired_streams, expired_sessions, timeouts, tick_sessions, expire_session, expire_sessions,
  cleanup,
}
use prosthetic_conscience.Gateway.Kernel.{session_event_arm, reduce}

module _ {WId SId SubId V : Type 0} where
  -- The streams whose end the effects send, in order.
  abbrev pub done : List (Effect WId SId SubId V) → List SId
  done [] = []
  done (send_client_done sid ∷ effects) = sid ∷ done effects
  done (dispatch_job w sid c payload ∷ effects) = done effects
  done (send_client_error sid message ∷ effects) = done effects
  done (session_effect effect ∷ effects) = done effects
  done (session_created id k ∷ effects) = done effects
  done (session_expired id entries ∷ effects) = done effects
  done (protocol_violation source message ∷ effects) = done effects

  done-append : (xs ys : List (Effect WId SId SubId V)) → done (xs ++ ys) ≡ done xs ++ done ys
  done-append [] ys = refl
  done-append (send_client_done sid ∷ xs) ys = ap (◌∷◌ sid) (done-append xs ys)
  done-append (dispatch_job w sid c payload ∷ xs) ys = done-append xs ys
  done-append (send_client_error sid message ∷ xs) ys = done-append xs ys
  done-append (session_effect effect ∷ xs) ys = done-append xs ys
  done-append (session_created id k ∷ xs) ys = done-append xs ys
  done-append (session_expired id entries ∷ xs) ys = done-append xs ys
  done-append (protocol_violation source message ∷ xs) ys = done-append xs ys

  done-append_quiet :
      (xs ys : List (Effect WId SId SubId V)) → done ys ≡ [] → done (xs ++ ys) ≡ done xs
  done-append_quiet xs ys h = done-append xs ys ∙ ap (λ zs. done xs ++ zs) h ∙ append-nil (done xs)

module _ (WId SubId V : Type 0) {SId : Type 0} where
  done-timeouts :
      (sids : List SId) → done (timeouts {WId = WId} {SubId = SubId} {V = V} sids) ≡ sids
  unfolding timeouts
  done-timeouts [] = refl
  done-timeouts (sid ∷ sids) = ap (◌∷◌ sid) (done-timeouts sids)

module _ (WId SId : Type 0) {SubId V : Type 0} where
  done-session_effects :
      (es : List (Session.Effect SubId V))
      → (let effects : List (Effect WId SId SubId V) = map session_effect es in done effects) ≡ []
  done-session_effects [] = refl
  done-session_effects (e ∷ es) = done-session_effects es

module _ (WId SId : Type 0) {SubId V : Type 0} ⦃eb : Eq SubId⦄ where
  done-cleanup : (event : Session.Event SubId V) → done (cleanup {WId = WId} {SId = SId} event) ≡ []
  unfolding cleanup
  done-cleanup (Session.entry_appended payload) = refl
  done-cleanup (Session.subscribed k tick) = refl
  done-cleanup (Session.unsubscribed k) = refl
  done-cleanup (Session.ticked tick) = refl
  done-cleanup (Session.subscriber_heartbeat k tick) = refl

module _ {WId SId SubId V : Type 0} ⦃eb : Eq SubId⦄ where
  done-tick_sessions :
      (tick : ℕ) (rest m : Map SessionId (Session.State SubId V))
      (es : List (Effect WId SId SubId V))
      → done es ≡ []
      → done (tick_sessions tick rest (m, es)).1 ≡ []
  unfolding tick_sessions
  done-tick_sessions tick [] m es h = h
  done-tick_sessions tick ((id, s) ∷ rest) m es h =
      let t = Session.reduce s (Session.ticked tick) in
      done-tick_sessions tick rest (update m id t.state) (es ++ map session_effect t.effects) (
        cc (
          done-append es (map session_effect t.effects),
          h,
          done-session_effects WId SId t.effects,
        ))

  done-expire_session :
      (id : SessionId) (m : Map SessionId (Session.State SubId V))
      (es : List (Effect WId SId SubId V))
      → done es ≡ []
      → done (expire_session id (m, es)).1 ≡ []
  unfolding expire_session
  done-expire_session id m es h = elim (Option-cases (get m id)) [
    | inl g ↦ rw (g, expire_session) h
    | inr (s, g) ↦
        rw (g, expire_session) (cc (done-append es (session_expired id s.entries.entries ∷ []), h))
  ]

  done-expire_sessions :
      (ids : List SessionId) (m : Map SessionId (Session.State SubId V))
      (es : List (Effect WId SId SubId V))
      → done es ≡ []
      → done (expire_sessions ids (m, es)).1 ≡ []
  unfolding expire_sessions
  done-expire_sessions [] m es h = h
  done-expire_sessions (id ∷ ids) m es h =
      let (m', es') = expire_session id (m, es) in
      done-expire_sessions ids m' es' (done-expire_session id m es h)

module _ {WId SId SubId V : Type 0} where
  abbrev pub is_dispatch : Effect WId SId SubId V → Bool
  is_dispatch (dispatch_job w sid c payload) = true
  is_dispatch _ = false

  -- The stream of a request that gets no worker.
  abbrev pub turned_away :
      ⦃es : Eq SId⦄ → Event WId SId SubId V → List (Effect WId SId SubId V) → SId → Bool
  turned_away (http_chat_requested sid payload stream_flag c) effects k =
      sid == k && not (any is_dispatch effects)
  turned_away _ effects k = false

module _ {WId SId SubId V : Type 0} ⦃ew : Eq WId⦄ ⦃ow : Ord WId⦄ ⦃dw : Display WId⦄ ⦃es : Eq SId⦄
    ⦃ds : Display SId⦄ ⦃eb : Eq SubId⦄ (hashing : Hashing) (s : GatewayState WId SId SubId V) where
  done-ticked : done (reduce hashing s ticked).effects ≡ due (add64 s.tick 1) s.active_streams
  unfolding reduce expired_streams
  done-ticked =
      let tick = add64 s.tick 1 in
      let (sessions, session_effects) =
        tick_sessions {WId = WId} {SId = SId} tick s.sessions (s.sessions, []) in
      let expired = expired_streams tick s.active_streams in
      let gone = expired_sessions sessions in
      done-append_quiet (timeouts expired ++ session_effects)
        (expire_sessions gone (sessions, [])).1 (done-expire_sessions gone sessions [] refl)
      ∙ done-append_quiet (timeouts expired) session_effects
          (done-tick_sessions tick s.sessions s.sessions [] refl)
      ∙ done-timeouts WId SubId V expired
      ∙ keys-filter_entries tick s.active_streams

  -- A tick removes exactly the streams whose deadline it reaches.
  pub get-ticked :
      (k : SId)
      → get (reduce hashing s ticked).state.active_streams k ≡ (
          if contains (due (add64 s.tick 1) s.active_streams) k
          then none
          else get s.active_streams k)
  unfolding reduce expired_streams
  get-ticked k =
      rw (← keys-filter_entries (add64 s.tick 1) s.active_streams)
        (get-without_all s.active_streams _ k)

  done-session_event :
      (id : SessionId) (event : Session.Event SubId V)
      → done (reduce hashing s (session_event id event)).effects ≡ []
  unfolding reduce
  done-session_event id event = elim (Option-cases (get s.sessions id)) [
    | inl g ↦ rw (g, session_event_arm) (done-cleanup WId SId event)
    | inr (st, g) ↦
        rw (g, session_event_arm) (done-session_effects WId SId (Session.reduce st event).effects)
  ]

  -- With each active stream listed once, an event sends the end of a stream exactly if it takes
  -- the stream off the active ones, or if the event is a chat request of that stream which
  -- dispatches no job.
  pub done_exact :
      (event : Event WId SId SubId V) (k : SId)
      → IsUnique s.active_streams
      → let t = reduce hashing s event in
        contains (done t.effects) k ≡ (
          contains_key s.active_streams k && not (contains_key t.state.active_streams k)
          || turned_away event t.effects k)
  unfolding reduce
  done_exact (http_chat_requested sid payload stream_flag c) k u = ground (
    arith,
    contains_key-update s.active_streams sid k (add64 s.tick s.stream_ttl),
    es.equals_iff sid k,
  )
  done_exact (worker_registered w caps) k u = ground arith
  done_exact (assignment_cleared sid) k u =
      ground (arith, contains_key-without s.active_streams sid k, es.equals_iff sid k)
  done_exact (assignment_failed sid message) k u =
      ground (arith, contains_key-without s.active_streams sid k, es.equals_iff sid k)
  done_exact (worker_heartbeat w) k u = ground arith
  done_exact (stream_heartbeat sid) k u = ground (
    arith,
    contains_key-update s.active_streams sid k (add64 s.tick s.stream_ttl),
    es.equals_iff sid k,
  )
  done_exact ticked k u = ground (
    arith,
    done-ticked,
    get-ticked k,
    contains-due (add64 s.tick 1) s.active_streams k u,
    contains_key-get s.active_streams k,
    contains_key-get (reduce hashing s ticked).state.active_streams k,
  )
  done_exact (session_requested j) k u = ground arith
  done_exact (session_event id event) k u = ground (arith, done-session_event id event)
