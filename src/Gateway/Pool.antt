-- ===== src/Gateway/Pool.antt =====
-- What each event of gateway/kernel.rs does to each worker of the pool.
use prosthetic_conscience.Prelude.{
  ◌≡◌, refl, inl, inr, Bool, true, false, List, [], ◌∷◌, Option, none, some, ◌||◌, ◌==◌, arith, Eq,
  Ord, Display, add64, ltb, if◌then◌else◌, Bool-cases, Option-cases, string_eq,
}
use prosthetic_conscience.Map.{
  get, contains_key, without, get-without, get-filter_entries, contains_key-get,
}
use prosthetic_conscience.Map.Ordered
use prosthetic_conscience.Protocol.{Capability, capability_eq}
use prosthetic_conscience.Gateway.State.{
  GatewayState, WorkerEntry, Event, Effect, Hashing, http_chat_requested, worker_registered,
  worker_heartbeat, ticked, dispatch_job,
}
use prosthetic_conscience.Gateway.Sweep.{find_capable, live_workers}
use prosthetic_conscience.Gateway.Workers.{available_kept}
use prosthetic_conscience.Gateway.Kernel.{chat_requested, reduce}

module _ {WId SId SubId V : Type 0} ⦃ew : Eq WId⦄ where
  -- A job is handed to the worker.
  abbrev pub is_dispatched : WId → List (Effect WId SId SubId V) → Bool
  is_dispatched w [] = false
  is_dispatched w (dispatch_job j sid c payload ∷ effects) = j == w || is_dispatched w effects
  is_dispatched w (_ ∷ effects) = is_dispatched w effects

module _ {WId SId SubId V : Type 0} ⦃ew : Eq WId⦄ ⦃ow : Ord WId⦄ ⦃dw : Display WId⦄ ⦃es : Eq SId⦄
    ⦃ds : Display SId⦄ ⦃eb : Eq SubId⦄ (hashing : Hashing) (s : GatewayState WId SId SubId V)
    (w : WId) where
  -- A worker whose deadline is later than the next tick is left by it.
  abbrev pub surviving : Option WorkerEntry → Option WorkerEntry
  surviving none = none
  surviving (some entry) = if ltb (add64 s.tick 1) entry.deadline then some entry else none

  -- A registration under an identifier that is known is refused.
  abbrev pub registered : List Capability → Option WorkerEntry → Option WorkerEntry
  registered caps (some entry) = some entry
  registered caps none = some (record { deadline = add64 s.tick s.worker_ttl; capabilities = caps })

  -- A heartbeat moves the deadline of a known worker.
  abbrev pub refreshed : Option WorkerEntry → Option WorkerEntry
  refreshed none = none
  refreshed (some entry) = some (record entry { deadline = add64 s.tick s.worker_ttl })

  -- What an event with these effects makes of the worker, who was `old` in the pool.
  abbrev pub worker_after :
      Event WId SId SubId V
      → List (Effect WId SId SubId V)
      → Option WorkerEntry
      → Option WorkerEntry
  worker_after ticked effects old = surviving old
  worker_after (worker_registered j caps) effects old = if j == w then registered caps old else old
  worker_after (worker_heartbeat j) effects old = if j == w then refreshed old else old
  worker_after (http_chat_requested sid payload stream_flag c) effects old =
      if is_dispatched w effects then none else old
  worker_after _ effects old = old

  get-available_ticked :
      Ordered.IsSorted s.available
      → get (reduce hashing s ticked).state.available w ≡ surviving (get s.available w)
  unfolding reduce live_workers
  get-available_ticked sorted = ground (
    arith,
    get-filter_entries (λ _ x. ltb (add64 s.tick 1) x.deadline) s.available w
        (Ordered.IsSorted-IsUnique s.available sorted),
  )

  get-available_registered :
      (j : WId) (caps : List Capability)
      → get (reduce hashing s (worker_registered j caps)).state.available w
        ≡ (if j == w then registered caps (get s.available w) else get s.available w)
  unfolding reduce
  get-available_registered j caps = elim (Option-cases (get s.available j)) [
    | inl m ↦ ground (
      arith,
      m,
      contains_key-get s.available j,
      ew.equals_iff j w,
      Ordered.get-update s.available j w
          (record { deadline = add64 s.tick s.worker_ttl; capabilities = caps }),
    )
    | inr (old, m) ↦ ground (arith, m, contains_key-get s.available j, ew.equals_iff j w)
  ]

  get-available_heartbeat :
      (j : WId)
      → get (reduce hashing s (worker_heartbeat j)).state.available w
        ≡ (if j == w then refreshed (get s.available w) else get s.available w)
  unfolding reduce
  get-available_heartbeat j = elim (Option-cases (get s.available j)) [
    | inl m ↦ ground (arith, m, ew.equals_iff j w)
    | inr (old, m) ↦ ground (
      arith,
      m,
      ew.equals_iff j w,
      Ordered.get-update (without s.available j) j w
          (record old { deadline = add64 s.tick s.worker_ttl }),
      get-without s.available j w,
    )
  ]

  get-available_chat :
      (sid : SId) (payload : V) (stream_flag : Bool) (c : Capability)
      → let t = reduce hashing s (http_chat_requested sid payload stream_flag c) in
        get t.state.available w ≡ (if is_dispatched w t.effects then none else get s.available w)
  unfolding reduce
  get-available_chat sid payload false c = refl
  get-available_chat sid payload true c = elim (Bool-cases (contains_key s.active_streams sid)) [
    | inl busy ↦ rw (busy, chat_requested) refl
    | inr idle ↦ elim (Option-cases (find_capable s.available c)) [
      | inl f ↦ rw (idle, f, chat_requested) refl
      | inr (j, f) ↦
          rw (idle, f, chat_requested)
            (ground (arith, get-without s.available j w, ew.equals_iff j w))
    ]
  ]

  -- With an ordered map of workers, after an event a worker of the pool is what `worker_after`
  -- says: a tick removes them exactly if it reaches their deadline; a registration adds them with
  -- a deadline and their capabilities, and changes nothing if they are known; a heartbeat moves
  -- the deadline of a known worker and adds no other; a chat request takes them off the pool
  -- exactly if it hands them a job; and every other event leaves them as they are.
  pub get-available_reduce :
      (event : Event WId SId SubId V)
      → Ordered.IsSorted s.available
      → let t = reduce hashing s event in
        get t.state.available w ≡ worker_after event t.effects (get s.available w)
  get-available_reduce ticked sorted = get-available_ticked sorted
  get-available_reduce (worker_registered j caps) sorted = get-available_registered j caps
  get-available_reduce (worker_heartbeat j) sorted = get-available_heartbeat j
  get-available_reduce (http_chat_requested sid payload stream_flag c) sorted =
      get-available_chat sid payload stream_flag c
  get-available_reduce event sorted = rw (available_kept hashing s event refl) refl
