-- ===== src/Gateway/Kernel.antt =====
-- crates/prosthetic-conscience/src/gateway/kernel.rs: `reduce`, arm by arm.
use prosthetic_conscience.Prelude.{
  Bool, List, [], ◌∷◌, ◌++◌, none, some, map, Eq, Ord, Display, to_string, if◌then◌else◌, add64,
  String, not, string_eq,
}
use prosthetic_conscience.Map.{get, contains_key, update, without}
use prosthetic_conscience.Map.Deadlines.{without_all}
use prosthetic_conscience.Map.Ordered
use prosthetic_conscience.Protocol.{Capability, capability_eq}
use prosthetic_conscience.Session
use prosthetic_conscience.Gateway.State.{
  GatewayState, SessionId, Event, Effect, Transition, Hashing, generate_session_id,
  http_chat_requested, worker_registered, assignment_cleared, assignment_failed, worker_heartbeat,
  stream_heartbeat, ticked, session_requested, session_event, dispatch_job, send_client_done,
  session_effect, session_created, protocol_violation, worker, stream, session,
}
use prosthetic_conscience.Gateway.Sweep.{
  find_capable, live_workers, expired_streams, fail_stream, timeouts, tick_sessions,
  expired_sessions, expire_sessions, cleanup,
}

module _ {WId SId SubId V : Type 0} ⦃ew : Eq WId⦄ ⦃ow : Ord WId⦄ ⦃dw : Display WId⦄ ⦃es : Eq SId⦄
    ⦃ds : Display SId⦄ ⦃eb : Eq SubId⦄ where
  unfoldable pub chat_requested :
      GatewayState WId SId SubId V → SId → V → Bool → Capability → Transition WId SId SubId V
  unfolding find_capable fail_stream
  chat_requested state client_stream_id payload stream_flag required =
      if not stream_flag
      then record {
        state = state;
        effects = fail_stream client_stream_id "stream=true is required in this phase";
      }
      else if contains_key state.active_streams client_stream_id
      then record {
        state = state;
        effects = fail_stream client_stream_id "stream already has an active assignment";
      }
      else elim (find_capable state.available required) [
        | some worker_id ↦ record {
          state = record state {
            available = without state.available worker_id;
            active_streams =
                update state.active_streams client_stream_id (add64 state.tick state.stream_ttl);
          };
          effects = dispatch_job worker_id client_stream_id required payload ∷ [];
        }
        | none ↦ record {
          state = state;
          effects = fail_stream client_stream_id "no idle worker available";
        }
      ]

  unfoldable pub worker_arm :
      GatewayState WId SId SubId V → WId → List Capability → Transition WId SId SubId V
  worker_arm state worker_id capabilities =
      if contains_key state.available worker_id
      then record {
        state = state;
        effects =
            protocol_violation (worker (to_string worker_id)) "duplicate worker registration" ∷ [];
      }
      else record {
        state = record state {
          available = Ordered.update state.available worker_id (record {
            deadline = add64 state.tick state.worker_ttl;
            capabilities = capabilities;
          });
        };
        effects = [];
      }

  unfoldable pub heartbeat_arm : GatewayState WId SId SubId V → WId → Transition WId SId SubId V
  heartbeat_arm state worker_id = elim (get state.available worker_id) [
    | some entry ↦ record {
      state = record state {
        available =
            Ordered.update (without state.available worker_id) worker_id
              (record entry { deadline = add64 state.tick state.worker_ttl });
      };
      effects = [];
    }
    | none ↦ record {
      state = state;
      effects =
          protocol_violation (worker (to_string worker_id)) "heartbeat from unknown worker" ∷ [];
    }
  ]

  -- The arms that need the stream to be active.
  unfoldable pub if_active :
      GatewayState WId SId SubId V
      → SId
      → String
      → Transition WId SId SubId V
      → Transition WId SId SubId V
  if_active state client_stream_id message t =
      if contains_key state.active_streams client_stream_id then t else record {
        state = state;
        effects = protocol_violation (stream (to_string client_stream_id)) message ∷ [];
      }

  unfoldable pub end_assignment :
      GatewayState WId SId SubId V
      → SId
      → List (Effect WId SId SubId V)
      → Transition WId SId SubId V
  end_assignment state client_stream_id effects = record {
    state = record state { active_streams = without state.active_streams client_stream_id };
    effects = effects;
  }

  unfoldable pub tick_arm : GatewayState WId SId SubId V → Transition WId SId SubId V
  unfolding live_workers expired_streams without_all timeouts tick_sessions expired_sessions
      expire_sessions
  tick_arm state =
      let tick = add64 state.tick 1 in
      let expired = expired_streams tick state.active_streams in
      let (ticked_sessions, session_effects) =
        tick_sessions tick state.sessions (state.sessions, []) in
      let (sessions, expiry_effects) =
        expire_sessions (expired_sessions ticked_sessions) (ticked_sessions, []) in
      record {
        state = record state {
          tick = tick;
          available = live_workers tick state.available;
          active_streams = without_all state.active_streams expired;
          sessions = sessions;
        };
        effects = timeouts expired ++ session_effects ++ expiry_effects;
      }

  unfoldable pub session_requested_arm :
      Hashing → GatewayState WId SId SubId V → SubId → Transition WId SId SubId V
  session_requested_arm hashing state subscriber_id =
      let session_id = generate_session_id hashing state.runtime_id state.session_counter in
      let initial : Session.State SubId V = record (Session.default {SubId = SubId} {V = V}) {
        subscriber_ttl = state.subscriber_ttl;
      } in
      record {
        state = record state {
          session_counter = add64 state.session_counter 1;
          sessions =
              update state.sessions session_id
                (Session.reduce initial (Session.subscribed subscriber_id state.tick)).state;
        };
        effects = session_created session_id subscriber_id ∷ [];
      }

  unfoldable pub session_event_arm :
      GatewayState WId SId SubId V → SessionId → Session.Event SubId V → Transition WId SId SubId V
  unfolding cleanup
  session_event_arm state session_id event = elim (get state.sessions session_id) [
    | some session_state ↦
        let t = Session.reduce session_state event in
        record {
          state = record state {
            sessions = update (without state.sessions session_id) session_id t.state;
          };
          effects = map session_effect t.effects;
        }
    | none ↦ record {
      state = state;
      effects = protocol_violation (session session_id) "event for unknown session" ∷ cleanup event;
    }
  ]

  unfoldable pub reduce :
      Hashing → GatewayState WId SId SubId V → Event WId SId SubId V → Transition WId SId SubId V
  unfolding chat_requested worker_arm heartbeat_arm if_active end_assignment tick_arm
      session_requested_arm session_event_arm
  reduce hashing state (http_chat_requested sid payload stream_flag required) =
      chat_requested state sid payload stream_flag required
  reduce hashing state (worker_registered worker_id capabilities) =
      worker_arm state worker_id capabilities
  reduce hashing state (assignment_cleared sid) =
      if_active state sid "assignment cleared for unknown stream"
        (end_assignment state sid (send_client_done sid ∷ []))
  reduce hashing state (assignment_failed sid message) =
      if_active state sid "assignment failed for unknown stream"
        (end_assignment state sid (fail_stream sid message))
  reduce hashing state (worker_heartbeat worker_id) = heartbeat_arm state worker_id
  reduce hashing state (stream_heartbeat sid) =
      if_active state sid "heartbeat for unknown stream" (record {
        state = record state {
          active_streams = update state.active_streams sid (add64 state.tick state.stream_ttl);
        };
        effects = [];
      })
  reduce hashing state ticked = tick_arm state
  reduce hashing state (session_requested subscriber_id) =
      session_requested_arm hashing state subscriber_id
  reduce hashing state (session_event session_id event) = session_event_arm state session_id event
