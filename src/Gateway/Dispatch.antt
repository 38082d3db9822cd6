-- ===== src/Gateway/Dispatch.antt =====
-- The `HttpChatRequested` arm of gateway/kernel.rs: which worker gets a job, and what a request
-- that gets none is told.
use prosthetic_conscience.Prelude.{
  ◌≡◌, refl, ◌⊎◌, inl, inr, Bool, true, false, String, [], ◌∷◌, none, some, arith, Eq, ◌==◌, Ord,
  Display, contains, add64, if◌then◌else◌, Bool-cases, Option-cases,
}
use prosthetic_conscience.Map.{
  Map, AllEntries, IsUnique, get, contains_key, get-update, get-without, contains_key_of_get,
}
use prosthetic_conscience.Map.Ordered
use prosthetic_conscience.Protocol.{Capability, capability_eq}
use prosthetic_conscience.Gateway.State.{
  GatewayState, WorkerEntry, Transition, Hashing, http_chat_requested, dispatch_job,
  send_client_error, send_client_done,
}
use prosthetic_conscience.Gateway.Sweep.{find_capable}
use prosthetic_conscience.Gateway.Kernel.{chat_requested, reduce}

module _ {WId : Type 0} ⦃ew : Eq WId⦄ where
  find_capable-none :
      (m : Map WId WorkerEntry) (c : Capability) (w : WId) (entry : WorkerEntry)
      → find_capable m c ≡ none
      → get m w ≡ some entry
      → contains entry.capabilities c ≡ false
  unfolding find_capable get
  find_capable-none [] c w entry h g = cc
  find_capable-none ((j, x) ∷ m) c w entry h g = ground (arith, find_capable-none m c w entry)

  find_capable_sound :
      (m : Map WId WorkerEntry) (c : Capability) (w : WId)
      → IsUnique m
      → find_capable m c ≡ some w
      → (entry : WorkerEntry) × (get m w ≡ some entry) × (contains entry.capabilities c ≡ true)
  unfolding find_capable get
  find_capable_sound [] c w u h = cc
  find_capable_sound ((j, x) ∷ m) c w u h = elim (Bool-cases (contains x.capabilities c)) [
    | inl p ↦ (x, ground (arith, ew.equals_iff j w), p)
    | inr p ↦
        let (entry, g, q) = find_capable_sound m c w u.1 (rw (p, find_capable) at h) in
        (entry, ground (arith, ew.equals_iff j w, contains_key_of_get m w g), q)
  ]

  below-get :
      ⦃ow : Ord WId⦄ (j w : WId) (m : Map WId WorkerEntry) (entry : WorkerEntry)
      → AllEntries (λ k _. ow.lt j k ≡ true) m
      → get m w ≡ some entry
      → ow.lt j w ≡ true
  unfolding get
  below-get j w [] entry a g = cc
  below-get j w ((k, x) ∷ m) entry a g =
      ground (arith, below-get j w m entry a.1, ew.equals_iff k w)

  find_capable_least :
      ⦃ow : Ord WId⦄ (m : Map WId WorkerEntry) (c : Capability) (w w' : WId) (entry : WorkerEntry)
      → Ordered.IsSorted m
      → find_capable m c ≡ some w
      → get m w' ≡ some entry
      → contains entry.capabilities c ≡ true
      → ow.lt w' w ≡ false
  unfolding find_capable get
  find_capable_least ⦃ow⦄ [] c w w' entry s h g q = cc
  find_capable_least ⦃ow⦄ ((j, x) ∷ m) c w w' entry s h g q = ground (
    arith,
    find_capable_least m c w w' entry s.1,
    below-get j w' m entry s.0,
    ew.equals_iff j w',
    ow.lt_irrefl j,
    ow.lt_trans j w' j,
  )

module _ {WId SId SubId V : Type 0} ⦃ew : Eq WId⦄ ⦃ow : Ord WId⦄ ⦃es : Eq SId⦄ where
  -- A stream was asked for that is not active. The job went to the least registered worker that is
  -- capable, which left the pool; the stream is active until its deadline, and nothing else changed.
  pub record IsServed (s : GatewayState WId SId SubId V) (sid : SId) (payload : V)
      (stream_flag : Bool) (c : Capability) (t : Transition WId SId SubId V) : Type 0 where
    pub streaming : stream_flag ≡ true
    pub idle : contains_key s.active_streams sid ≡ false
    pub worker_id : WId
    pub entry : WorkerEntry
    pub registered : get s.available worker_id ≡ some entry
    pub capable : contains entry.capabilities c ≡ true
    pub least :
        (w : WId) (other : WorkerEntry)
        → get s.available w ≡ some other
        → contains other.capabilities c ≡ true
        → ow.lt w worker_id ≡ false
    pub told : t.effects ≡ dispatch_job worker_id sid c payload ∷ []
    pub consumed :
        (w : WId) → get t.state.available w ≡ (if worker_id == w then none else get s.available w)
    pub tracked :
        (k : SId)
        → get t.state.active_streams k
          ≡ (if sid == k then some (add64 s.tick s.stream_ttl) else get s.active_streams k)
    pub others :
        t.state
        ≡ record s { available = t.state.available; active_streams = t.state.active_streams }

  -- Why a request is refused, with what the client is told: it is no stream, or else its stream is
  -- active, or else no registered worker is capable.
  abbrev pub IsReason : GatewayState WId SId SubId V → SId → Bool → Capability → String → Type 0
  IsReason s sid stream_flag c message =
      ((stream_flag ≡ false) × (message ≡ "stream=true is required in this phase"))
      ⊎ ((stream_flag ≡ true)
          × (contains_key s.active_streams sid ≡ true)
          × (message ≡ "stream already has an active assignment"))
      ⊎ ((stream_flag ≡ true)
          × (contains_key s.active_streams sid ≡ false)
          × (message ≡ "no idle worker available")
          × ((w : WId) (entry : WorkerEntry)
              → get s.available w ≡ some entry
              → contains entry.capabilities c ≡ false))

  -- The stream got an error that tells the reason, and its end, and nothing changed.
  pub record IsRefused (s : GatewayState WId SId SubId V) (sid : SId) (stream_flag : Bool)
      (c : Capability) (t : Transition WId SId SubId V) : Type 0 where
    pub message : String
    pub told : t.effects ≡ send_client_error sid message ∷ send_client_done sid ∷ []
    pub unchanged : t.state ≡ s
    pub reason : IsReason s sid stream_flag c message

module _ {WId SId SubId V : Type 0} ⦃ew : Eq WId⦄ ⦃ow : Ord WId⦄ ⦃dw : Display WId⦄ ⦃es : Eq SId⦄
    ⦃ds : Display SId⦄ ⦃eb : Eq SubId⦄ (hashing : Hashing) (s : GatewayState WId SId SubId V)
    (sid : SId) (payload : V) (c : Capability) where
  chat_found :
      Ordered.IsSorted s.available
      → contains_key s.active_streams sid ≡ false
      → (w : WId) → find_capable s.available c ≡ some w
      → IsServed s sid payload true c (reduce hashing s (http_chat_requested sid payload true c))
  unfolding reduce
  chat_found sorted idle w f =
      let (entry, g, q) =
        find_capable_sound s.available c w (Ordered.IsSorted-IsUnique s.available sorted) f in
      rw (idle, f, chat_requested)
        (record {
          streaming = refl;
          idle = idle;
          worker_id = w;
          entry = entry;
          registered = g;
          capable = q;
          least = λ w' other. find_capable_least s.available c w w' other sorted f;
          told = refl;
          consumed = λ w'. get-without s.available w w';
          tracked = λ k. get-update s.active_streams sid k _;
          others = refl;
        })

  -- With an ordered map of workers, a chat request is either served: it asks for a stream, which
  -- is not active, its job is dispatched to the least registered worker that is capable, which
  -- leaves the pool, the stream is active until its deadline, and nothing else changes. Or it is
  -- refused: the stream gets an error and its end, nothing changes, and the error tells the
  -- reason: the request asks for no stream; or it asks for one that is active; or it asks for one
  -- that is not, but no registered worker is capable.
  pub chat-IsServed_or_IsRefused :
      (stream_flag : Bool)
      → Ordered.IsSorted s.available
      → let t = reduce hashing s (http_chat_requested sid payload stream_flag c) in
        IsServed s sid payload stream_flag c t ⊎ IsRefused s sid stream_flag c t
  unfolding reduce
  chat-IsServed_or_IsRefused false sorted = inr (record {
    message = "stream=true is required in this phase";
    told = refl;
    unchanged = refl;
    reason = inl (refl, refl);
  })
  chat-IsServed_or_IsRefused true sorted = elim (Bool-cases (contains_key s.active_streams sid)) [
    | inl busy ↦ inr (
        rw (busy, chat_requested)
          (record {
            message = "stream already has an active assignment";
            told = refl;
            unchanged = refl;
            reason = inr (inl (refl, busy, refl));
          }))
    | inr idle ↦ elim (Option-cases (find_capable s.available c)) [
      | inl f ↦ inr (
          rw (idle, f, chat_requested)
            (record {
              message = "no idle worker available";
              told = refl;
              unchanged = refl;
              reason =
                  inr
                    (inr (refl, idle, refl, λ w entry. find_capable-none s.available c w entry f));
            }))
      | inr (w, f) ↦ inl (chat_found sorted idle w f)
    ]
  ]
