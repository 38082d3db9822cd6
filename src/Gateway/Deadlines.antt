-- ===== src/Gateway/Deadlines.antt =====
-- Deadlines in gateway/kernel.rs of workers and of streams, and the clock.
use prosthetic_conscience.Prelude.{
  ℕ, ◌+◌, ◌<◌, ◌≡◌, ◌≢◌, refl, inl, inr, some, arith, Eq, Ord, Display, add64, add64_lem, u64_mod,
  ltb, Option-cases,
}
use prosthetic_conscience.Map.{get, without, get-update, get-without, get-filter_entries}
use prosthetic_conscience.Map.Deadlines.{contains-due}
use prosthetic_conscience.Map.Ordered
use prosthetic_conscience.Gateway.State.{
  GatewayState, WorkerEntry, Event, Hashing, http_chat_requested, worker_registered,
  assignment_cleared, assignment_failed, worker_heartbeat, stream_heartbeat, ticked,
}
use prosthetic_conscience.Gateway.Sweep.{find_capable, live_workers}
use prosthetic_conscience.Gateway.Kernel.{reduce}
use prosthetic_conscience.Gateway.Invariant.{IsWellFormed}
use prosthetic_conscience.Gateway.Streams.{get-ticked}

module _ {WId SId SubId V : Type 0} ⦃ew : Eq WId⦄ ⦃es : Eq SId⦄ where
  -- No deadline is reached.
  pub record NoneOverdue (s : GatewayState WId SId SubId V) : Type 0 where
    pub workers :
        (w : WId) (entry : WorkerEntry) → get s.available w ≡ some entry → s.tick < entry.deadline
    pub active : (k : SId) (d : ℕ) → get s.active_streams k ≡ some d → s.tick < d

  -- The times to live are positive, and the clock has room for one more of each.
  pub record HasRoom (s : GatewayState WId SId SubId V) : Type 0 where
    pub worker_ttl : 0 < s.worker_ttl
    pub stream_ttl : 0 < s.stream_ttl
    pub worker_room : s.tick + s.worker_ttl < u64_mod
    pub stream_room : s.tick + s.stream_ttl < u64_mod

module _ {WId SId SubId V : Type 0} ⦃ew : Eq WId⦄ ⦃ow : Ord WId⦄ ⦃dw : Display WId⦄ ⦃es : Eq SId⦄
    ⦃ds : Display SId⦄ ⦃eb : Eq SubId⦄ (hashing : Hashing) (s : GatewayState WId SId SubId V)
    (v : IsWellFormed s) (room : HasRoom s) (n : NoneOverdue s) where
  worker_deadline : s.tick < add64 s.tick s.worker_ttl
  worker_deadline = omega (arith, add64_lem s.tick s.worker_ttl room.worker_room)

  stream_deadline : s.tick < add64 s.tick s.stream_ttl
  stream_deadline = omega (arith, add64_lem s.tick s.stream_ttl room.stream_room)

  tick-reduce :
      (event : Event WId SId SubId V)
      → event ≢ ticked
      → (reduce hashing s event).state.tick ≡ s.tick
  unfolding reduce
  tick-reduce ticked h = absurd (h refl)
  tick-reduce _ h = ground arith

  worker_timely :
      (event : Event WId SId SubId V) (w : WId) (entry : WorkerEntry)
      → get (reduce hashing s event).state.available w ≡ some entry
      → (reduce hashing s event).state.tick < entry.deadline
  unfolding reduce live_workers
  worker_timely ticked w entry g = ground (
    arith,
    get-filter_entries (λ _ x. ltb (add64 s.tick 1) x.deadline) s.available w
        (Ordered.IsSorted-IsUnique s.available v.sorted),
  )
  worker_timely (worker_registered j caps) w entry g = ground (
    arith,
    worker_deadline,
    n.workers w entry,
    Ordered.get-update s.available j w
        (record { deadline = add64 s.tick s.worker_ttl; capabilities = caps }),
  )
  worker_timely (worker_heartbeat j) w entry g = elim (Option-cases (get s.available j)) [
    | inl m ↦ ground (arith, n.workers w entry)
    | inr (old, m) ↦ ground (
      arith,
      worker_deadline,
      n.workers w entry,
      Ordered.get-update (without s.available j) j w
          (record old { deadline = add64 s.tick s.worker_ttl }),
      get-without s.available j w,
    )
  ]
  worker_timely (http_chat_requested sid payload stream_flag c) w entry g =
      elim (Option-cases (find_capable s.available c)) [
        | inl f ↦ ground (arith, n.workers w entry)
        | inr (j, f) ↦ ground (arith, n.workers w entry, get-without s.available j w)
      ]
  worker_timely _ w entry g = ground (arith, n.workers w entry)

  stream_timely :
      (event : Event WId SId SubId V) (k : SId) (d : ℕ)
      → get (reduce hashing s event).state.active_streams k ≡ some d
      → (reduce hashing s event).state.tick < d
  unfolding reduce
  stream_timely ticked k d g =
      ground
        (arith, get-ticked hashing s k, contains-due (add64 s.tick 1) s.active_streams k v.streams)
  stream_timely (http_chat_requested sid payload stream_flag c) k d g = ground (
    arith,
    stream_deadline,
    n.active k d,
    get-update s.active_streams sid k (add64 s.tick s.stream_ttl),
  )
  stream_timely (stream_heartbeat sid) k d g = ground (
    arith,
    stream_deadline,
    n.active k d,
    get-update s.active_streams sid k (add64 s.tick s.stream_ttl),
  )
  stream_timely (assignment_cleared sid) k d g =
      ground (arith, n.active k d, get-without s.active_streams sid k)
  stream_timely (assignment_failed sid message) k d g =
      ground (arith, n.active k d, get-without s.active_streams sid k)
  stream_timely _ k d g = ground (arith, n.active k d)

  -- In a well-formed state with positive times to live and room on the clock, if no worker and no
  -- stream is at or past its deadline, then none is after any event.
  pub reduce-NoneOverdue :
      (event : Event WId SId SubId V) → NoneOverdue (reduce hashing s event).state
  reduce-NoneOverdue event = record { workers = worker_timely event; active = stream_timely event }
