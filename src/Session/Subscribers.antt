-- ===== src/Session/Subscribers.antt =====
-- The subscribers of a session and their deadlines: gateway/session/kernel.rs, the arms of
-- `reduce` that subscribe, refresh and remove, and the expiry loop of `Tick`.
use mathlib.Core.List.{append-nil, append_assoc}
use prosthetic_conscience.Prelude.{
  ℕ, ◌≡◌, refl, ap, ◌∙◌, not, ◌&&◌, List, [], ◌∷◌, ◌++◌, Option, none, some, arith, Eq, ◌==◌, leb,
  if◌then◌else◌, add64, contains, IsDistinct, is_some, map, Bool-cases, inl, inr, is_empty,
}
use prosthetic_conscience.Map.{
  Map, IsUnique, get, contains_key, without, get-update, get-without, contains_key-update,
  contains_key-without, contains_key-get, update-IsUnique, without-IsUnique,
}
use prosthetic_conscience.Map.Deadlines.{is_due, due, contains-due, due-IsDistinct}
use prosthetic_conscience.Session.{
  State, Event, Effect, entry_appended, subscribed, unsubscribed, ticked, subscriber_heartbeat,
  notify_subscribers, subscriber_removed, expire, reduce,
}

module _ {SubId : Type 0} ⦃e : Eq SubId⦄ where
  expired-expire :
      (tick : ℕ) (m : Map SubId ℕ) (ex : List SubId) (sv : Map SubId ℕ)
      → (expire tick m (ex, sv)).0 ≡ ex ++ due tick m
  unfolding expire
  expired-expire tick [] ex sv = rw append-nil
  expired-expire tick ((k, d) ∷ m) ex sv = elim (Bool-cases (leb d tick)) [
    | inl h ↦
        rw (h, expire)
          (expired-expire tick m (ex ++ k ∷ []) (without sv k)
            ∙ append_assoc ex (k ∷ []) (due tick m))
    | inr h ↦ rw (h, expire) (expired-expire tick m ex sv)
  ]

  get-expire :
      (tick : ℕ) (m : Map SubId ℕ) (ex : List SubId) (sv : Map SubId ℕ) (k : SubId)
      → get (expire tick m (ex, sv)).1 k ≡ (if contains (due tick m) k then none else get sv k)
  unfolding expire
  get-expire tick [] ex sv k = refl
  get-expire tick ((j, d) ∷ m) ex sv k = ground (
    arith,
    get-expire tick m ex sv k,
    get-expire tick m (ex ++ j ∷ []) (without sv j) k,
    get-without sv j k,
  )

  expire-IsUnique :
      (tick : ℕ) (m : Map SubId ℕ) (ex : List SubId) (sv : Map SubId ℕ)
      → IsUnique sv
      → IsUnique (expire tick m (ex, sv)).1
  unfolding expire
  expire-IsUnique tick [] ex sv u = u
  expire-IsUnique tick ((j, d) ∷ m) ex sv u = elim (Bool-cases (leb d tick)) [
    | inl h ↦
        rw (h, expire)
          (expire-IsUnique tick m (ex ++ j ∷ []) (without sv j) (without-IsUnique sv j u))
    | inr h ↦ rw (h, expire) (expire-IsUnique tick m ex sv u)
  ]

module _ {SubId V : Type 0} where
  -- The subscribers that the effects announce as removed, in order.
  abbrev pub removed : List (Effect SubId V) → List SubId
  removed [] = []
  removed (notify_subscribers index payload ids ∷ effects) = removed effects
  removed (subscriber_removed k ∷ effects) = k ∷ removed effects

removed-map :
    {SubId : Type 0} (V : Type 0) (ks : List SubId)
    → (let effects : List (Effect SubId V) = map subscriber_removed ks in removed effects) ≡ ks
removed-map V [] = refl
removed-map V (k ∷ ks) = ap (◌∷◌ k) (removed-map V ks)

module _ {SubId V : Type 0} ⦃e : Eq SubId⦄ where
  -- What an event leaves as the deadline of a subscriber that had the deadline `old`.
  abbrev pub deadline_after : State SubId V → Event SubId V → SubId → Option ℕ → Option ℕ
  deadline_after s (entry_appended payload) k old = old
  deadline_after s (subscribed j tick) k old =
      if j == k then some (add64 tick s.subscriber_ttl) else old
  deadline_after s (unsubscribed j) k old = if j == k then none else old
  deadline_after s (ticked tick) k old = if is_due tick old then none else old
  deadline_after s (subscriber_heartbeat j tick) k old =
      if j == k && is_some old then some (add64 tick s.subscriber_ttl) else old

  -- With each subscriber listed once, after an event of a session the deadline of a subscriber is
  -- the one that `deadline_after` computes from the old one.
  pub get-reduce :
      (s : State SubId V) (event : Event SubId V) (k : SubId)
      → IsUnique s.subscribers
      → get (reduce s event).state.subscribers k ≡ deadline_after s event k (get s.subscribers k)
  unfolding reduce
  get-reduce s (entry_appended payload) k u = refl
  get-reduce s (subscribed j tick) k u = get-update s.subscribers j k _
  get-reduce s (unsubscribed j) k u =
      ground
        (arith, get-without s.subscribers j k, contains_key-get s.subscribers k, e.equals_iff j k)
  get-reduce s (ticked tick) k u =
      ground (
        arith,
        get-expire tick s.subscribers [] s.subscribers k,
        contains-due tick s.subscribers k u,
      )
  get-reduce s (subscriber_heartbeat j tick) k u = ground (
    arith,
    get-update s.subscribers j k (add64 tick s.subscriber_ttl),
    contains_key-get s.subscribers j,
    e.equals_iff j k,
  )

  pub reduce-IsUnique :
      (s : State SubId V) (event : Event SubId V)
      → IsUnique s.subscribers
      → IsUnique (reduce s event).state.subscribers
  unfolding reduce
  reduce-IsUnique s (entry_appended payload) u = u
  reduce-IsUnique s (subscribed j tick) u = update-IsUnique s.subscribers j _ u
  reduce-IsUnique s (unsubscribed j) u = elim (Bool-cases (contains_key s.subscribers j)) [
    | inl h ↦ rw h (without-IsUnique s.subscribers j u)
    | inr h ↦ rw h u
  ]
  reduce-IsUnique s (ticked tick) u = expire-IsUnique tick s.subscribers [] s.subscribers u
  reduce-IsUnique s (subscriber_heartbeat j tick) u =
      elim (Bool-cases (contains_key s.subscribers j)) [
        | inl h ↦ rw h (update-IsUnique s.subscribers j _ u)
        | inr h ↦ rw h u
      ]

  removed-ticked :
      (s : State SubId V) (tick : ℕ)
      → removed (reduce s (ticked tick)).effects ≡ due tick s.subscribers
  unfolding reduce
  removed-ticked s tick = removed-map V _ ∙ expired-expire tick s.subscribers [] s.subscribers

  contains-removed_ticked :
      (s : State SubId V) (tick : ℕ) (k : SubId)
      → IsUnique s.subscribers
      → contains (removed (reduce s (ticked tick)).effects) k ≡ is_due tick (get s.subscribers k)
  contains-removed_ticked s tick k u =
      rw (removed-ticked s tick) (contains-due tick s.subscribers k u)

  -- With each subscriber listed once, an event of a session announces a subscriber as removed
  -- exactly if it takes them off the session.
  pub removed_exact :
      (s : State SubId V) (event : Event SubId V) (k : SubId)
      → IsUnique s.subscribers
      → contains (removed (reduce s event).effects) k
        ≡ (contains_key s.subscribers k && not (contains_key (reduce s event).state.subscribers k))
  unfolding reduce
  removed_exact s (entry_appended payload) k u = ground arith
  removed_exact s (subscribed j tick) k u =
      ground (arith, contains_key-update s.subscribers j k (add64 tick s.subscriber_ttl))
  removed_exact s (unsubscribed j) k u =
      ground (arith, contains_key-without s.subscribers j k, e.equals_iff j k)
  removed_exact s (ticked tick) k u = ground (
    arith,
    contains-removed_ticked s tick k u,
    get-reduce s (ticked tick) k u,
    contains_key-get s.subscribers k,
    contains_key-get (reduce s (ticked tick)).state.subscribers k,
  )
  removed_exact s (subscriber_heartbeat j tick) k u =
      ground (arith, contains_key-update s.subscribers j k (add64 tick s.subscriber_ttl))

  -- With each subscriber listed once, an event of a session announces no subscriber twice as
  -- removed.
  pub removed-IsDistinct :
      (s : State SubId V) (event : Event SubId V)
      → IsUnique s.subscribers
      → IsDistinct (removed (reduce s event).effects)
  unfolding reduce
  removed-IsDistinct s (entry_appended payload) u = elim (Bool-cases (is_empty s.subscribers)) [
    | inl h ↦ rw h tt
    | inr h ↦ rw h tt
  ]
  removed-IsDistinct s (subscribed j tick) u = tt
  removed-IsDistinct s (unsubscribed j) u = elim (Bool-cases (contains_key s.subscribers j)) [
    | inl h ↦ rw h (refl, tt)
    | inr h ↦ rw h tt
  ]
  removed-IsDistinct s (ticked tick) u =
      rw (removed-ticked s tick) (due-IsDistinct tick s.subscribers u)
  removed-IsDistinct s (subscriber_heartbeat j tick) u =
      elim (Bool-cases (contains_key s.subscribers j)) [ inl h ↦ rw h tt | inr h ↦ rw h tt ]
