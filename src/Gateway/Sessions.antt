-- ===== src/Gateway/Sessions.antt =====
-- The sessions of the gateway: gateway/kernel.rs, the `SessionEvent`, `SessionRequested` and
-- `Tick` arms.
use mathlib.Core.Option
use prosthetic_conscience.Prelude.{
  ℕ, ◌≡◌, refl, Bool, true, false, List, [], ◌∷◌, ◌++◌, Option, none, some, arith, Eq, ◌==◌, Ord,
  Display, contains, is_empty, add64, if◌then◌else◌, Option-cases, inl, inr, map, string_eq, eq_iff,
}
use prosthetic_conscience.Map.{
  Map, IsUnique, get, update, without, get-update, get-without, contains_key-get, without-IsUnique,
  update-IsUnique, contains-keys_filter,
}
use prosthetic_conscience.Session
use prosthetic_conscience.Gateway.State.{
  GatewayState, SessionId, Event, Effect, Hashing, ticked, session_event, session_requested,
  session_effect, generate_session_id,
}
use prosthetic_conscience.Gateway.Sweep.{
  tick_sessions, expired_sessions, expire_session, expire_sessions,
}
use prosthetic_conscience.Gateway.Kernel.{session_event_arm, reduce}

module _ {SubId V : Type 0} ⦃eb : Eq SubId⦄ where
  -- A session after a tick, and what remains of it: nothing without subscribers.
  abbrev pub after_tick : ℕ → Session.State SubId V → Session.State SubId V
  after_tick tick st = (Session.reduce st (Session.ticked tick)).state

  abbrev pub survivor : Session.State SubId V → Option (Session.State SubId V)
  survivor st = if is_empty st.subscribers then none else some st

  abbrev pub and_tick : ℕ → Option (Session.State SubId V) → Option (Session.State SubId V)
  and_tick tick none = none
  and_tick tick (some st) = survivor (after_tick tick st)

module _ {WId SId SubId V : Type 0} ⦃eb : Eq SubId⦄ where
  get-tick_sessions :
      (tick : ℕ) (rest m : Map SessionId (Session.State SubId V))
      (es : List (Effect WId SId SubId V)) (id : SessionId)
      → IsUnique rest
      → get (tick_sessions tick rest (m, es)).0 id
        ≡ elim (get rest id) [ none ↦ get m id | some st ↦ some (after_tick tick st) ]
  unfolding tick_sessions get
  get-tick_sessions tick [] m es id u = refl
  get-tick_sessions tick ((j, st) ∷ rest) m es id u =
      let t = Session.reduce st (Session.ticked tick) in
      ground (
        arith,
        get-tick_sessions tick rest (update m j t.state) (es ++ map session_effect t.effects) id
            u.1,
        get-update m j id t.state,
        contains_key-get rest j,
        eq_iff j id,
      )

  tick_sessions-IsUnique :
      (tick : ℕ) (rest m : Map SessionId (Session.State SubId V))
      (es : List (Effect WId SId SubId V))
      → IsUnique m
      → IsUnique (tick_sessions tick rest (m, es)).0
  unfolding tick_sessions
  tick_sessions-IsUnique tick [] m es u = u
  tick_sessions-IsUnique tick ((j, st) ∷ rest) m es u =
      tick_sessions-IsUnique tick rest _ _ (update-IsUnique m j _ u)

  get-expire_session :
      (i id : SessionId) (m : Map SessionId (Session.State SubId V))
      (es : List (Effect WId SId SubId V))
      → get (expire_session i (m, es)).0 id ≡ (if i == id then none else get m id)
  unfolding expire_session
  get-expire_session i id m es = ground (arith, get-without m i id, eq_iff i id)

  get-expire_sessions :
      (ids : List SessionId) (m : Map SessionId (Session.State SubId V))
      (es : List (Effect WId SId SubId V)) (id : SessionId)
      → get (expire_sessions ids (m, es)).0 id ≡ (if contains ids id then none else get m id)
  unfolding expire_sessions
  get-expire_sessions [] m es id = refl
  get-expire_sessions (i ∷ ids) m es id =
      let (m', es') = expire_session i (m, es) in
      ground (arith, get-expire_sessions ids m' es' id, get-expire_session i id m es)

  expire_session-IsUnique :
      (i : SessionId) (m : Map SessionId (Session.State SubId V))
      (es : List (Effect WId SId SubId V))
      → IsUnique m
      → IsUnique (expire_session i (m, es)).0
  unfolding expire_session
  expire_session-IsUnique i m es u = elim (Option-cases (get m i)) [
    | inl g ↦ rw (g, expire_session) u
    | inr (st, g) ↦ rw (g, expire_session) (without-IsUnique m i u)
  ]

  expire_sessions-IsUnique :
      (ids : List SessionId) (m : Map SessionId (Session.State SubId V))
      (es : List (Effect WId SId SubId V))
      → IsUnique m
      → IsUnique (expire_sessions ids (m, es)).0
  unfolding expire_sessions
  expire_sessions-IsUnique [] m es u = u
  expire_sessions-IsUnique (i ∷ ids) m es u =
      let (m', es') = expire_session i (m, es) in
      expire_sessions-IsUnique ids m' es' (expire_session-IsUnique i m es u)

module _ {WId SId SubId V : Type 0} ⦃ew : Eq WId⦄ ⦃ow : Ord WId⦄ ⦃dw : Display WId⦄ ⦃es : Eq SId⦄
    ⦃ds : Display SId⦄ ⦃eb : Eq SubId⦄ (hashing : Hashing) (s : GatewayState WId SId SubId V)
    (id : SessionId) where
  get-sessions_ticked :
      IsUnique s.sessions
      → get (reduce hashing s ticked).state.sessions id
        ≡ and_tick (add64 s.tick 1) (get s.sessions id)
  unfolding reduce expired_sessions
  get-sessions_ticked u =
      let tick = add64 s.tick 1 in
      let (m, effects) = tick_sessions {WId = WId} {SId = SId} tick s.sessions (s.sessions, []) in
      let m_unique : IsUnique m =
        tick_sessions-IsUnique {WId = WId} {SId = SId} tick s.sessions s.sessions [] u in
      ground (
        arith,
        get-expire_sessions {WId = WId} {SId = SId} (expired_sessions m) m [] id,
        contains-keys_filter (λ _ st. is_empty st.subscribers) m id m_unique,
        get-tick_sessions {WId = WId} {SId = SId} tick s.sessions s.sessions [] id u,
      )

  -- What an event leaves of a session that was `old`: a tick reaches every session and removes
  -- exactly those that it leaves without subscribers, an event for one session reaches that one
  -- alone, and a request adds a session with its first subscriber.
  abbrev pub session_after :
      Event WId SId SubId V → Option (Session.State SubId V) → Option (Session.State SubId V)
  session_after ticked old = and_tick (add64 s.tick 1) old
  session_after (session_event i event) old =
      if i == id then Option.map (λ st. (Session.reduce st event).state) old else old
  session_after (session_requested k) old =
      if generate_session_id hashing s.runtime_id s.session_counter == id
      then some (record {
        entries = Session.new;
        subscribers = (k, add64 s.tick s.subscriber_ttl) ∷ [];
        subscriber_ttl = s.subscriber_ttl;
      })
      else old
  session_after _ old = old

  get-sessions_event :
      (i : SessionId) (event : Session.Event SubId V)
      → get (reduce hashing s (session_event i event)).state.sessions id
        ≡ session_after (session_event i event) (get s.sessions id)
  unfolding reduce
  get-sessions_event i event = elim (Option-cases (get s.sessions i)) [
    | inl g ↦ rw (g, session_event_arm) (ground (arith, eq_iff i id))
    | inr (st, g) ↦
        let st' = (Session.reduce st event).state in
        rw (g, session_event_arm)
          (ground (
            arith,
            get-update (without s.sessions i) i id st',
            get-without s.sessions i id,
            eq_iff i id,
          ))
  ]

  -- With each session listed once, after an event a session is what `session_after` says: a tick
  -- sweeps its subscribers and ends it when none is left, an event of its own is reduced on it, a
  -- request may create it with one subscriber, and every other event leaves it.
  pub get-sessions_reduce :
      (event : Event WId SId SubId V)
      → IsUnique s.sessions
      → get (reduce hashing s event).state.sessions id ≡ session_after event (get s.sessions id)
  unfolding reduce
  get-sessions_reduce ticked u = get-sessions_ticked u
  get-sessions_reduce (session_event i event) u = get-sessions_event i event
  get-sessions_reduce (session_requested k) u =
      unfold Session.reduce update in get-update s.sessions _ id _
  get-sessions_reduce event u = ground arith

module _ {WId SId SubId V : Type 0} ⦃ew : Eq WId⦄ ⦃ow : Ord WId⦄ ⦃dw : Display WId⦄ ⦃es : Eq SId⦄
    ⦃ds : Display SId⦄ ⦃eb : Eq SubId⦄ (hashing : Hashing) (s : GatewayState WId SId SubId V) where
  -- The events of workers and streams leave the sessions alone.
  abbrev pub is_session_event : Event WId SId SubId V → Bool
  is_session_event ticked = true
  is_session_event (session_event i event) = true
  is_session_event (session_requested k) = true
  is_session_event _ = false

  pub sessions_kept :
      (event : Event WId SId SubId V)
      → is_session_event event ≡ false
      → (reduce hashing s event).state.sessions ≡ s.sessions
  unfolding reduce
  sessions_kept ticked h = cc
  sessions_kept (session_event i event) h = cc
  sessions_kept (session_requested k) h = cc
  sessions_kept _ h = ground arith

  ticked-IsUnique : IsUnique s.sessions → IsUnique (reduce hashing s ticked).state.sessions
  unfolding reduce
  ticked-IsUnique u =
      let tick = add64 s.tick 1 in
      let (m, effects) = tick_sessions {WId = WId} {SId = SId} tick s.sessions (s.sessions, []) in
      expire_sessions-IsUnique {WId = WId} {SId = SId} (expired_sessions m) m []
        (tick_sessions-IsUnique {WId = WId} {SId = SId} tick s.sessions s.sessions [] u)

  session_event-IsUnique :
      (i : SessionId) (event : Session.Event SubId V)
      → IsUnique s.sessions
      → IsUnique (reduce hashing s (session_event i event)).state.sessions
  unfolding reduce
  session_event-IsUnique i event u = elim (Option-cases (get s.sessions i)) [
    | inl g ↦ rw (g, session_event_arm) u
    | inr (st, g) ↦
        rw (g, session_event_arm) (update-IsUnique _ i _ (without-IsUnique s.sessions i u))
  ]

  session_requested-IsUnique :
      (k : SubId)
      → IsUnique s.sessions
      → IsUnique (reduce hashing s (session_requested k)).state.sessions
  unfolding reduce
  session_requested-IsUnique k u = update-IsUnique s.sessions _ _ u

  pub sessions_reduce-IsUnique :
      (event : Event WId SId SubId V)
      → IsUnique s.sessions
      → IsUnique (reduce hashing s event).state.sessions
  sessions_reduce-IsUnique ticked u = ticked-IsUnique u
  sessions_reduce-IsUnique (session_event i event) u = session_event-IsUnique i event u
  sessions_reduce-IsUnique (session_requested k) u = session_requested-IsUnique k u
  sessions_reduce-IsUnique event u = rw (sessions_kept event refl) u
