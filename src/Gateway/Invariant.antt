-- ===== src/Gateway/Invariant.antt =====
-- Well-formed states of gateway/kernel.rs: the maps and the order of the workers.
use mathlib.Core.Option
use prosthetic_conscience.Prelude.{
  ◌≡◌, refl, sym, subst, ◌∙◌, is_empty, inl, inr, Bool, true, false, Option, none, some, arith, Eq,
  ◌==◌, Ord, Display, add64, if◌then◌else◌, Bool-cases, string_eq,
}
use prosthetic_conscience.Map.{IsUnique, get, contains_key}
use prosthetic_conscience.Map.Ordered
use prosthetic_conscience.Session
use prosthetic_conscience.Session.Subscribers.{reduce-IsUnique}
use prosthetic_conscience.Gateway.State.{
  GatewayState, SessionId, Event, generate_session_id, Hashing, ticked, session_requested,
  session_event,
}
use prosthetic_conscience.Gateway.Kernel.{reduce}
use prosthetic_conscience.Gateway.Sessions.{
  session_after, after_tick, survivor, get-sessions_reduce, sessions_reduce-IsUnique,
}
use prosthetic_conscience.Gateway.Workers.{available-IsSorted}
use prosthetic_conscience.Gateway.Active.{streams-IsUnique}

module _ {WId SId SubId V : Type 0} ⦃ew : Eq WId⦄ ⦃ow : Ord WId⦄ ⦃es : Eq SId⦄ ⦃eb : Eq SubId⦄ where
  pub record IsWellFormed (s : GatewayState WId SId SubId V) : Type 0 where
    pub sorted : Ordered.IsSorted s.available
    pub streams : IsUnique s.active_streams
    pub sessions : IsUnique s.sessions
    pub subscribers :
        (id : SessionId) (st : Session.State SubId V)
        → get s.sessions id ≡ some st
        → IsUnique st.subscribers

module _ {SubId V : Type 0} ⦃eb : Eq SubId⦄ where
  some-IsUnique :
      (st' st : Session.State SubId V)
      → IsUnique st'.subscribers
      → some st' ≡ some st
      → IsUnique st.subscribers
  some-IsUnique st' st u h =
      let e : st' ≡ st = cc in subst (λ (x : Session.State SubId V). IsUnique x.subscribers) e u

  survivor-IsUnique :
      (st' st : Session.State SubId V)
      → IsUnique st'.subscribers
      → survivor st' ≡ some st
      → IsUnique st.subscribers
  survivor-IsUnique st' st u h = elim (Bool-cases (is_empty st'.subscribers)) [
    | inl e ↦ absurd (ground arith)
    | inr e ↦ some-IsUnique st' st u (ground arith)
  ]

  updated-IsUnique :
      (b : Bool) (event : Session.Event SubId V) (old : Option (Session.State SubId V))
      (st : Session.State SubId V)
      → ((st' : Session.State SubId V) → old ≡ some st' → IsUnique st'.subscribers)
      → (if b then Option.map (λ x. (Session.reduce x event).state) old else old) ≡ some st
      → IsUnique st.subscribers
  updated-IsUnique false event old st u h = u st h
  updated-IsUnique true event none st u h = absurd (ground arith)
  updated-IsUnique true event (some st') st u h =
      some-IsUnique (Session.reduce st' event).state st (reduce-IsUnique st' event (u st' refl)) h

  created-IsUnique :
      (b : Bool) (fresh : Session.State SubId V) (old : Option (Session.State SubId V))
      (st : Session.State SubId V)
      → IsUnique fresh.subscribers
      → ((st' : Session.State SubId V) → old ≡ some st' → IsUnique st'.subscribers)
      → (if b then some fresh else old) ≡ some st
      → IsUnique st.subscribers
  created-IsUnique false fresh old st f u h = u st h
  created-IsUnique true fresh old st f u h = some-IsUnique fresh st f h

module _ {WId SId SubId V : Type 0} ⦃ew : Eq WId⦄ ⦃ow : Ord WId⦄ ⦃dw : Display WId⦄ ⦃es : Eq SId⦄
    ⦃ds : Display SId⦄ ⦃eb : Eq SubId⦄ (hashing : Hashing) (s : GatewayState WId SId SubId V) where
  -- The sessions that an event leaves have proper subscriber maps if the old ones had.
  after-IsUnique :
      (id : SessionId) (event : Event WId SId SubId V) (old : Option (Session.State SubId V))
      (st : Session.State SubId V)
      → ((st' : Session.State SubId V) → old ≡ some st' → IsUnique st'.subscribers)
      → session_after hashing s id event old ≡ some st
      → IsUnique st.subscribers
  unfolding contains_key
  after-IsUnique id ticked none st u h = cc
  after-IsUnique id ticked (some st') st u h =
      survivor-IsUnique (after_tick (add64 s.tick 1) st') st (reduce-IsUnique st' _ (u st' refl)) h
  after-IsUnique id (session_event i event) old st u h = updated-IsUnique (i == id) event old st u h
  after-IsUnique id (session_requested k) old st u h =
      created-IsUnique (generate_session_id hashing s.runtime_id s.session_counter == id) _ old st
        (refl, tt) u h
  after-IsUnique id event old st u h = u st h

  -- The lists that stand for maps are kept proper by every event, as the maps of the source are by
  -- their types: workers in ascending order, and every stream, session and subscriber of a session
  -- listed once.
  reduce-IsWellFormed :
      (event : Event WId SId SubId V) → IsWellFormed s → IsWellFormed (reduce hashing s event).state
  reduce-IsWellFormed event v = record {
    sorted = available-IsSorted hashing s event v.sorted;
    streams = streams-IsUnique hashing s event v.streams;
    sessions = sessions_reduce-IsUnique hashing s event v.sessions;
    subscribers = λ id st h.
        after-IsUnique id event (get s.sessions id) st (v.subscribers id)
          (sym (get-sessions_reduce hashing s id event v.sessions) ∙ h);
  }
