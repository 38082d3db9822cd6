-- ===== src/Gateway/Workers.antt =====
-- The pool of idle workers in gateway/kernel.rs, and the order of their identifiers.
use prosthetic_conscience.Prelude.{
  ◌≡◌, refl, inl, inr, Bool, true, false, List, arith, Eq, Ord, Display, Bool-cases, Option-cases,
  string_eq,
}
use prosthetic_conscience.Map.{get, contains_key, without}
use prosthetic_conscience.Map.Ordered
use prosthetic_conscience.Protocol.{Capability}
use prosthetic_conscience.Gateway.State.{
  GatewayState, Event, Hashing, http_chat_requested, worker_registered, worker_heartbeat, ticked,
}
use prosthetic_conscience.Gateway.Sweep.{find_capable, live_workers}
use prosthetic_conscience.Gateway.Kernel.{chat_requested, worker_arm, heartbeat_arm, reduce}

module _ {WId SId SubId V : Type 0} ⦃ew : Eq WId⦄ ⦃ow : Ord WId⦄ ⦃dw : Display WId⦄ ⦃es : Eq SId⦄
    ⦃ds : Display SId⦄ ⦃eb : Eq SubId⦄ (hashing : Hashing) (s : GatewayState WId SId SubId V) where
  chat-IsSorted :
      (sid : SId) (payload : V) (stream_flag : Bool) (c : Capability)
      → Ordered.IsSorted s.available
      → Ordered.IsSorted
          (reduce hashing s (http_chat_requested sid payload stream_flag c)).state.available
  unfolding reduce
  chat-IsSorted sid payload false c h = h
  chat-IsSorted sid payload true c h = elim (Bool-cases (contains_key s.active_streams sid)) [
    | inl busy ↦ rw (busy, chat_requested) h
    | inr idle ↦ elim (Option-cases (find_capable s.available c)) [
      | inl f ↦ rw (idle, f, chat_requested) h
      | inr (w, f) ↦ rw (idle, f, chat_requested) (Ordered.without-IsSorted s.available w h)
    ]
  ]

  worker_registered-IsSorted :
      (w : WId) (caps : List Capability)
      → Ordered.IsSorted s.available
      → Ordered.IsSorted (reduce hashing s (worker_registered w caps)).state.available
  unfolding reduce
  worker_registered-IsSorted w caps h = elim (Bool-cases (contains_key s.available w)) [
    | inl known ↦ rw (known, worker_arm) h
    | inr fresh ↦ rw (fresh, worker_arm) (Ordered.update-IsSorted s.available w _ h)
  ]

  worker_heartbeat-IsSorted :
      (w : WId)
      → Ordered.IsSorted s.available
      → Ordered.IsSorted (reduce hashing s (worker_heartbeat w)).state.available
  unfolding reduce
  worker_heartbeat-IsSorted w h = elim (Option-cases (get s.available w)) [
    | inl g ↦ rw (g, heartbeat_arm) h
    | inr (entry, g) ↦
        rw (g, heartbeat_arm)
          (Ordered.update-IsSorted (without s.available w) w _
            (Ordered.without-IsSorted s.available w h))
  ]

  ticked-IsSorted :
      Ordered.IsSorted s.available → Ordered.IsSorted (reduce hashing s ticked).state.available
  unfolding reduce live_workers
  ticked-IsSorted h = Ordered.filter_entries-IsSorted _ s.available h

  abbrev pub is_worker_event : Event WId SId SubId V → Bool
  is_worker_event (http_chat_requested sid payload stream_flag c) = true
  is_worker_event (worker_registered w caps) = true
  is_worker_event (worker_heartbeat w) = true
  is_worker_event ticked = true
  is_worker_event _ = false

  pub available_kept :
      (event : Event WId SId SubId V)
      → is_worker_event event ≡ false
      → (reduce hashing s event).state.available ≡ s.available
  unfolding reduce
  available_kept ticked h = cc
  available_kept (http_chat_requested sid payload stream_flag c) h = cc
  available_kept (worker_registered w caps) h = cc
  available_kept (worker_heartbeat w) h = cc
  available_kept _ h = ground arith

  pub available-IsSorted :
      (event : Event WId SId SubId V)
      → Ordered.IsSorted s.available
      → Ordered.IsSorted (reduce hashing s event).state.available
  available-IsSorted (http_chat_requested sid payload stream_flag c) h =
      chat-IsSorted sid payload stream_flag c h
  available-IsSorted (worker_registered w caps) h = worker_registered-IsSorted w caps h
  available-IsSorted (worker_heartbeat w) h = worker_heartbeat-IsSorted w h
  available-IsSorted ticked h = ticked-IsSorted h
  available-IsSorted event h = rw (available_kept event refl) h
