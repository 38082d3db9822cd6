-- ===== src/Examples/GatewayTests.antt =====
-- Tests and instances for gateway/kernel.rs, over numbers as identifiers and payloads.
use prosthetic_conscience.Prelude.{
  ℕ, ◌≡◌, add64, refl, true, not, ◌&&◌, ◌||◌, ◌∷◌, [], some, none, nat_eq, nat_ord, arith, contains,
  Display, String, string_eq, ◌⊎◌,
}
use mathlib.Core.Path.{subst}
use prosthetic_conscience.Map.{IsUnique, get, contains_key, filter_entries, update, without}
use prosthetic_conscience.Map.Ordered
use prosthetic_conscience.Protocol.{chat, transcription}
use prosthetic_conscience.Session
use prosthetic_conscience.Gateway.State.{
  GatewayState, Hashing, Transition, generate_session_id, http_chat_requested, worker_registered,
  ticked, session_event,
}
use prosthetic_conscience.Gateway.Kernel.{reduce}
use prosthetic_conscience.Gateway.Dispatch.{IsServed, IsRefused, chat-IsServed_or_IsRefused}
use prosthetic_conscience.Gateway.Streams.{done, turned_away, done_exact}
use prosthetic_conscience.Gateway.Sessions.{session_after, get-sessions_reduce}
use prosthetic_conscience.Gateway.Invariant.{IsWellFormed}
use prosthetic_conscience.Gateway.Deadlines.{HasRoom, NoneOverdue, reduce-NoneOverdue}
use prosthetic_conscience.Gateway.Departures.{departed, departure_announced}
use prosthetic_conscience.Gateway.Pool.{worker_after, get-available_reduce}
use prosthetic_conscience.Gateway.ChannelRegistry
use prosthetic_conscience.Gateway.ChannelRegistry.{ChannelRegistry, WorkerId}
use prosthetic_conscience.Gateway.ChannelRegistry.Handles.{
  register_all, take_all, take_all-register_all,
}

instance abbrev number_text : Display ℕ
number_text = record { to_string = λ n. "number" }

abbrev hashing : Hashing
hashing = record { finish = λ a b. a; hex16 = λ n. "a-new-session" }

abbrev chatroom : Session.State ℕ ℕ
chatroom = record {
  entries = record { entries = 7 ∷ [] };
  subscribers = (5, 11) ∷ (6, 90) ∷ [];
  subscriber_ttl = 30;
}

abbrev gateway : GatewayState ℕ ℕ ℕ ℕ
gateway = record {
  tick = 10;
  worker_ttl = 30;
  stream_ttl = 60;
  subscriber_ttl = 30;
  runtime_id = 1;
  session_counter = 0;
  available =
      (1, record { deadline = 20; capabilities = transcription ∷ [] })
      ∷ (2, record { deadline = 25; capabilities = chat ∷ [] })
      ∷ [];
  active_streams = (3, 11) ∷ (4, 50) ∷ [];
  sessions = ("room", chatroom) ∷ [];
}

gateway-IsSorted : Ordered.IsSorted gateway.available
gateway-IsSorted = ((refl, tt), (tt, tt))

chatroom_of :
    (id : String) (st : Session.State ℕ ℕ) → get gateway.sessions id ≡ some st → chatroom ≡ st
unfolding get
chatroom_of id st h = ground arith

gateway-IsWellFormed : IsWellFormed gateway
unfolding contains_key
gateway-IsWellFormed = record {
  sorted = gateway-IsSorted;
  streams = (refl, (refl, tt));
  sessions = (refl, tt);
  subscribers =
      λ id st h. subst (λ x. IsUnique x.subscribers) (chatroom_of id st h) (refl, (refl, tt));
}

gateway_room : HasRoom gateway
gateway_room = record {
  worker_ttl = omega arith;
  stream_ttl = omega arith;
  worker_room = omega arith;
  stream_room = omega arith;
}

gateway_timely : NoneOverdue gateway
unfolding get
gateway_timely = record { workers = λ w entry g. ground arith; active = λ k d g. ground arith }

ServedOrRefused : Transition ℕ ℕ ℕ ℕ → Type 0
ServedOrRefused t = IsServed gateway 9 42 true chat t ⊎ IsRefused gateway 9 true chat t

chat-IsServed_or_IsRefused_example :
    ServedOrRefused (reduce hashing gateway (http_chat_requested 9 42 true chat))
unfolding ServedOrRefused
chat-IsServed_or_IsRefused_example =
    chat-IsServed_or_IsRefused hashing gateway 9 42 chat true gateway-IsSorted

done_exact_example : contains (done (reduce hashing gateway ticked).effects) 3 ≡ (
    contains_key gateway.active_streams 3
      && not (contains_key (reduce hashing gateway ticked).state.active_streams 3)
    || turned_away ticked (reduce hashing gateway ticked).effects 3)
done_exact_example = done_exact hashing gateway ticked 3 gateway-IsWellFormed.streams

-- The stream of the example does end at that tick.
stream_ended : contains (done (reduce hashing gateway ticked).effects) 3 ≡ true
unfolding reduce filter_entries add64
stream_ended = refl

departure_announced_example : contains (departed (reduce hashing gateway ticked).effects) 5 ≡ true
unfolding get contains_key reduce generate_session_id filter_entries update Session.reduce add64
    without
departure_announced_example =
    departure_announced hashing gateway gateway-IsWellFormed "room" chatroom 5 refl refl ticked refl
      refl

-- A registration of a worker who is known.
get-available_reduce_example :
    get (reduce hashing gateway (worker_registered 1 (chat ∷ []))).state.available 1
    ≡ worker_after hashing gateway 1
        (worker_registered 1 (chat ∷ []))
        (reduce hashing gateway (worker_registered 1 (chat ∷ []))).effects
        (get gateway.available 1)
get-available_reduce_example =
    get-available_reduce hashing gateway 1 (worker_registered 1 (chat ∷ [])) gateway-IsSorted

reduce-NoneOverdue_example : NoneOverdue (reduce hashing gateway ticked).state
reduce-NoneOverdue_example =
    reduce-NoneOverdue hashing gateway gateway-IsWellFormed gateway_room gateway_timely ticked

get-sessions_reduce_example :
    get
      (reduce hashing gateway (session_event "room" (Session.unsubscribed 5))).state.sessions
      "room"
    ≡ session_after hashing gateway "room"
        (session_event "room" (Session.unsubscribed 5))
        (get gateway.sessions "room")
get-sessions_reduce_example =
    get-sessions_reduce hashing gateway "room" (session_event "room" (Session.unsubscribed 5))
      gateway-IsWellFormed.sessions

-- A registry with a worker and a stream, and two workers more.
abbrev registry : ChannelRegistry ℕ ℕ ℕ
registry = record { workers = ("w0", 7) ∷ []; streams = ("s0", 8) ∷ []; subscribers = [] }

take_all-register_all_example :
    take_all (register_all registry (("w1", 1) ∷ ("w2", 2) ∷ [])) ("w1" ∷ "w2" ∷ [])
    ≡ (registry, some 1 ∷ some 2 ∷ [])
unfolding contains_key
take_all-register_all_example =
    take_all-register_all registry (("w1", 1) ∷ ("w2", 2) ∷ []) (refl, (refl, tt))
      (refl, (refl, tt))

-- A handle is taken once.
taken_once : (take_all registry ("w0" ∷ "w0" ∷ [])).1 ≡ some 7 ∷ none ∷ []
unfolding ChannelRegistry.take_worker get without
taken_once = refl
