-- ===== src/Gateway/Active.antt =====
-- The map of active streams in gateway/kernel.rs.
use prosthetic_conscience.Prelude.{
  ◌≡◌, refl, inl, inr, Bool, true, false, arith, Eq, String, Ord, Display, add64, Bool-cases,
  Option-cases, string_eq,
}
use prosthetic_conscience.Map.{IsUnique, contains_key, without-IsUnique, update-IsUnique}
use prosthetic_conscience.Map.Deadlines.{without_all-IsUnique}
use prosthetic_conscience.Protocol.{Capability}
use prosthetic_conscience.Gateway.State.{
  GatewayState, Event, Transition, Hashing, http_chat_requested, worker_registered,
  assignment_cleared, assignment_failed, worker_heartbeat, stream_heartbeat, ticked,
  session_requested, session_event,
}
use prosthetic_conscience.Gateway.Sweep.{find_capable, expired_streams}
use prosthetic_conscience.Gateway.Kernel.{chat_requested, if_active, reduce}

module _ {WId SId SubId V : Type 0} ⦃ew : Eq WId⦄ ⦃ow : Ord WId⦄ ⦃dw : Display WId⦄ ⦃es : Eq SId⦄
    ⦃ds : Display SId⦄ ⦃eb : Eq SubId⦄ (hashing : Hashing) (s : GatewayState WId SId SubId V) where
  chat-IsUnique :
      (sid : SId) (payload : V) (stream_flag : Bool) (c : Capability)
      → IsUnique s.active_streams
      → IsUnique
          (reduce hashing s (http_chat_requested sid payload stream_flag c)).state.active_streams
  unfolding reduce
  chat-IsUnique sid payload false c h = h
  chat-IsUnique sid payload true c h = elim (Bool-cases (contains_key s.active_streams sid)) [
    | inl busy ↦ rw (busy, chat_requested) h
    | inr idle ↦ elim (Option-cases (find_capable s.available c)) [
      | inl f ↦ rw (idle, f, chat_requested) h
      | inr (w, f) ↦ rw (idle, f, chat_requested) (update-IsUnique s.active_streams sid _ h)
    ]
  ]

  ticked-IsUnique :
      IsUnique s.active_streams → IsUnique (reduce hashing s ticked).state.active_streams
  unfolding reduce
  ticked-IsUnique h =
      without_all-IsUnique s.active_streams (expired_streams (add64 s.tick 1) s.active_streams) h

  -- The three arms that need an active stream.
  if_active-IsUnique :
      (sid : SId) (message : String) (t : Transition WId SId SubId V)
      → IsUnique s.active_streams
      → IsUnique t.state.active_streams
      → IsUnique (if_active s sid message t).state.active_streams
  unfolding if_active
  if_active-IsUnique sid message t h k = elim (Bool-cases (contains_key s.active_streams sid)) [
    | inl on ↦ rw (on, if_active) k
    | inr off ↦ rw (off, if_active) h
  ]

  assignment_cleared-IsUnique :
      (sid : SId)
      → IsUnique s.active_streams
      → IsUnique (reduce hashing s (assignment_cleared sid)).state.active_streams
  unfolding reduce
  assignment_cleared-IsUnique sid h =
      if_active-IsUnique sid _ _ h (without-IsUnique s.active_streams sid h)

  assignment_failed-IsUnique :
      (sid : SId) (message : String)
      → IsUnique s.active_streams
      → IsUnique (reduce hashing s (assignment_failed sid message)).state.active_streams
  unfolding reduce
  assignment_failed-IsUnique sid message h =
      if_active-IsUnique sid _ _ h (without-IsUnique s.active_streams sid h)

  stream_heartbeat-IsUnique :
      (sid : SId)
      → IsUnique s.active_streams
      → IsUnique (reduce hashing s (stream_heartbeat sid)).state.active_streams
  unfolding reduce
  stream_heartbeat-IsUnique sid h =
      if_active-IsUnique sid _ _ h (update-IsUnique s.active_streams sid _ h)

  abbrev pub is_stream_event : Event WId SId SubId V → Bool
  is_stream_event (worker_registered w caps) = false
  is_stream_event (worker_heartbeat w) = false
  is_stream_event (session_requested k) = false
  is_stream_event (session_event id event) = false
  is_stream_event _ = true

  pub streams_kept :
      (event : Event WId SId SubId V)
      → is_stream_event event ≡ false
      → (reduce hashing s event).state.active_streams ≡ s.active_streams
  unfolding reduce
  streams_kept (worker_registered w caps) h = ground arith
  streams_kept (worker_heartbeat w) h = ground arith
  streams_kept (session_requested k) h = ground arith
  streams_kept (session_event id event) h = ground arith
  streams_kept _ h = cc

  pub streams-IsUnique :
      (event : Event WId SId SubId V)
      → IsUnique s.active_streams
      → IsUnique (reduce hashing s event).state.active_streams
  streams-IsUnique (http_chat_requested sid payload stream_flag c) h =
      chat-IsUnique sid payload stream_flag c h
  streams-IsUnique (assignment_cleared sid) h = assignment_cleared-IsUnique sid h
  streams-IsUnique (assignment_failed sid message) h = assignment_failed-IsUnique sid message h
  streams-IsUnique (stream_heartbeat sid) h = stream_heartbeat-IsUnique sid h
  streams-IsUnique ticked h = ticked-IsUnique h
  streams-IsUnique event h = rw (streams_kept event refl) h
