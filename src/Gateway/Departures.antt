-- ===== src/Gateway/Departures.antt =====
-- Who leaves a session, and which sessions end: the effects of gateway/kernel.rs that announce it.
use prosthetic_conscience.Prelude.{
  ℕ, ◌≡◌, refl, ap, Bool, true, false, ◌||◌, List, [], ◌∷◌, ◌++◌, Option, none, some, arith, Eq,
  ◌==◌, Ord, Display, contains, add64, Bool-cases, inl, inr, map, string_eq, eq_iff,
}
use prosthetic_conscience.Map.{Map, get, contains_key, update, contains_key-get}
use prosthetic_conscience.Session
use prosthetic_conscience.Session.Subscribers.{removed, removed_exact}
use prosthetic_conscience.Gateway.State.{
  GatewayState, SessionId, Event, Effect, Hashing, generate_session_id, ticked, session_event,
  session_requested, session_effect, session_expired, session_created, dispatch_job,
  send_client_error, send_client_done, protocol_violation,
}
use prosthetic_conscience.Gateway.Sweep.{
  tick_sessions, expired_streams, expired_sessions, expire_sessions, timeouts,
}
use prosthetic_conscience.Gateway.Kernel.{session_event_arm, reduce}
use prosthetic_conscience.Gateway.Sessions.{after_tick, and_tick, get-sessions_reduce}
use prosthetic_conscience.Gateway.Invariant.{IsWellFormed}

module _ {WId SId SubId V : Type 0} where
  -- The effects that a session asked for.
  abbrev pub session_effects : List (Effect WId SId SubId V) → List (Session.Effect SubId V)
  session_effects [] = []
  session_effects (session_effect effect ∷ effects) = effect ∷ session_effects effects
  session_effects (dispatch_job w sid c payload ∷ effects) = session_effects effects
  session_effects (send_client_error sid message ∷ effects) = session_effects effects
  session_effects (send_client_done sid ∷ effects) = session_effects effects
  session_effects (session_created id k ∷ effects) = session_effects effects
  session_effects (session_expired id entries ∷ effects) = session_effects effects
  session_effects (protocol_violation source message ∷ effects) = session_effects effects

  -- The subscribers that the effects announce as removed.
  abbrev pub departed : List (Effect WId SId SubId V) → List SubId
  departed effects = removed (session_effects effects)

  departed-append :
      ⦃eb : Eq SubId⦄ (xs ys : List (Effect WId SId SubId V)) (k : SubId)
      → contains (departed (xs ++ ys)) k ≡ (contains (departed xs) k || contains (departed ys) k)
  departed-append [] ys k = refl
  departed-append (session_effect (Session.notify_subscribers i p ids) ∷ xs) ys k =
      departed-append xs ys k
  departed-append (session_effect (Session.subscriber_removed j) ∷ xs) ys k =
      ground (arith, departed-append xs ys k)
  departed-append (dispatch_job w sid c payload ∷ xs) ys k = departed-append xs ys k
  departed-append (send_client_error sid message ∷ xs) ys k = departed-append xs ys k
  departed-append (send_client_done sid ∷ xs) ys k = departed-append xs ys k
  departed-append (session_created id j ∷ xs) ys k = departed-append xs ys k
  departed-append (session_expired id entries ∷ xs) ys k = departed-append xs ys k
  departed-append (protocol_violation source message ∷ xs) ys k = departed-append xs ys k

module _ (WId SId : Type 0) {SubId V : Type 0} where
  session_effects-map :
      (es : List (Session.Effect SubId V))
      → (let effects : List (Effect WId SId SubId V) = map session_effect es in
          session_effects effects)
        ≡ es
  session_effects-map [] = refl
  session_effects-map (e ∷ es) = ap (◌∷◌ e) (session_effects-map es)

module _ {WId SId SubId V : Type 0} ⦃eb : Eq SubId⦄ where
  tick_sessions_keeps :
      (tick : ℕ) (rest m : Map SessionId (Session.State SubId V))
      (es : List (Effect WId SId SubId V)) (k : SubId)
      → contains (departed es) k ≡ true
      → contains (departed (tick_sessions tick rest (m, es)).1) k ≡ true
  unfolding tick_sessions
  tick_sessions_keeps tick [] m es k h = h
  tick_sessions_keeps tick ((id, st) ∷ rest) m es k h =
      let t = Session.reduce st (Session.ticked tick) in
      let more : List (Effect WId SId SubId V) = map session_effect t.effects in
      tick_sessions_keeps tick rest (update m id t.state) (es ++ more) k
        (ground (arith, departed-append es more k))

  -- The tick of each session announces what it removes.
  tick_sessions-departed :
      (tick : ℕ) (rest m : Map SessionId (Session.State SubId V))
      (es : List (Effect WId SId SubId V)) (id : SessionId) (st : Session.State SubId V) (k : SubId)
      → get rest id ≡ some st
      → contains (removed (Session.reduce st (Session.ticked tick)).effects) k ≡ true
      → contains (departed (tick_sessions tick rest (m, es)).1) k ≡ true
  unfolding tick_sessions get
  tick_sessions-departed tick [] m es id st k g h = cc
  tick_sessions-departed tick ((j, x) ∷ rest) m es id st k g h =
      let t = Session.reduce x (Session.ticked tick) in
      let more : List (Effect WId SId SubId V) = map session_effect t.effects in
      elim (Bool-cases (j == id)) [
        | inl e ↦
            let same : x ≡ st = ground arith in
            let told : contains (departed more) k ≡ true =
              rw (session_effects-map WId SId t.effects, same) h in
            tick_sessions_keeps tick rest (update m j t.state) (es ++ more) k
              (ground (arith, departed-append es more k))
        | inr e ↦
            tick_sessions-departed tick rest (update m j t.state) (es ++ more) id st k
              (ground arith) h
      ]

module _ {SubId V : Type 0} ⦃eb : Eq SubId⦄ where
  abbrev pub subscribed_to : Option (Session.State SubId V) → SubId → Bool
  subscribed_to none k = false
  subscribed_to (some st) k = contains_key st.subscribers k

  and_tick-gone :
      (tick : ℕ) (st : Session.State SubId V) (k : SubId)
      → subscribed_to (and_tick tick (some st)) k ≡ false
      → contains_key (after_tick tick st).subscribers k ≡ false
  unfolding contains_key
  and_tick-gone tick st k h = ground arith

module _ {WId SId SubId V : Type 0} ⦃ew : Eq WId⦄ ⦃ow : Ord WId⦄ ⦃dw : Display WId⦄ ⦃es : Eq SId⦄
    ⦃ds : Display SId⦄ ⦃eb : Eq SubId⦄ (hashing : Hashing) (s : GatewayState WId SId SubId V)
    (v : IsWellFormed s) (id : SessionId) (st : Session.State SubId V) (k : SubId)
    (known : get s.sessions id ≡ some st) (inside : contains_key st.subscribers k ≡ true) where
  ticked_departed :
      contains_key (after_tick (add64 s.tick 1) st).subscribers k ≡ false
      → contains (departed (reduce hashing s ticked).effects) k ≡ true
  unfolding reduce
  ticked_departed gone =
      let tick = add64 s.tick 1 in
      let (m, told) = tick_sessions {WId = WId} {SId = SId} tick s.sessions (s.sessions, []) in
      let expired : List (Effect WId SId SubId V) =
        timeouts (expired_streams tick s.active_streams) in
      let ended : List (Effect WId SId SubId V) =
        (expire_sessions (expired_sessions m) (m, [])).1 in
      ground (
        arith,
        departed-append (expired ++ told) ended k,
        departed-append expired told k,
        tick_sessions-departed {WId = WId} {SId = SId} tick s.sessions s.sessions [] id st k known
            (ground (arith, removed_exact st (Session.ticked tick) k (v.subscribers id st known))),
      )

  event_departed :
      (event : Session.Event SubId V)
      → contains_key (Session.reduce st event).state.subscribers k ≡ false
      → contains (departed (reduce hashing s (session_event id event)).effects) k ≡ true
  unfolding reduce
  event_departed event gone =
      rw (known, session_event_arm)
        (rw (session_effects-map WId SId (Session.reduce st event).effects)
          (ground (arith, removed_exact st event k (v.subscribers id st known))))

  -- In a well-formed state, if the identifier of the next session is not in use, a subscriber of
  -- a session whom an event takes off it, or whose session it ends, is announced as removed by
  -- the effects.
  pub departure_announced :
      (event : Event WId SId SubId V)
      → contains_key s.sessions (generate_session_id hashing s.runtime_id s.session_counter) ≡ false
      → subscribed_to (get (reduce hashing s event).state.sessions id) k ≡ false
      → contains (departed (reduce hashing s event).effects) k ≡ true
  departure_announced ticked fresh gone =
      let left = rw (get-sessions_reduce hashing s id ticked v.sessions, known) at gone in
      ticked_departed (and_tick-gone (add64 s.tick 1) st k left)
  departure_announced (session_event i event) fresh gone = elim (Bool-cases (i == id)) [
    | inl e ↦
        let same : i ≡ id = (eq_iff i id).0 e in
        let left : contains_key (Session.reduce st event).state.subscribers k ≡ false =
          ground (arith, get-sessions_reduce hashing s id (session_event i event) v.sessions) in
        rw same (event_departed event left)
    | inr e ↦
        absurd (ground (arith, get-sessions_reduce hashing s id (session_event i event) v.sessions))
  ]
  departure_announced (session_requested j) fresh gone = absurd (
      ground (
        arith,
        get-sessions_reduce hashing s id (session_requested j) v.sessions,
        contains_key-get s.sessions id,
        eq_iff (generate_session_id hashing s.runtime_id s.session_counter) id,
      ))
  departure_announced event fresh gone =
      absurd (ground (arith, get-sessions_reduce hashing s id event v.sessions))
