-- ===== src/Gateway/State.antt =====
-- crates/prosthetic-conscience/src/gateway/kernel.rs and effects/: the state of the gateway, its
-- events and its effects. `V` stands for the JSON values. Identifiers of workers, streams and
-- subscribers are type parameters, as in the source.
use prosthetic_conscience.Prelude.{ℕ, Bool, String, List, [], ◌∷◌}
use prosthetic_conscience.Map.{Map}
use prosthetic_conscience.Protocol.{Capability}
use prosthetic_conscience.Session

abbrev pub SessionId : Type 0
SessionId = String

pub record WorkerEntry : Type 0 where
  pub deadline : ℕ
  pub capabilities : List Capability

pub record GatewayState (WId SId SubId V : Type 0) : Type 0 where
  pub tick : ℕ
  pub worker_ttl : ℕ
  pub stream_ttl : ℕ
  pub subscriber_ttl : ℕ
  pub runtime_id : ℕ
  pub session_counter : ℕ
  pub available : Map WId WorkerEntry
  pub active_streams : Map SId ℕ
  pub sessions : Map SessionId (Session.State SubId V)

module _ {WId SId SubId V : Type 0} where
  abbrev pub new : ℕ → ℕ → ℕ → ℕ → GatewayState WId SId SubId V
  new runtime_id worker_ttl stream_ttl subscriber_ttl = record {
    tick = 0;
    worker_ttl = worker_ttl;
    stream_ttl = stream_ttl;
    subscriber_ttl = subscriber_ttl;
    runtime_id = runtime_id;
    session_counter = 0;
    available = [];
    active_streams = [];
    sessions = [];
  }

pub data Event (WId SId SubId V : Type 0) : Type 0 where
  http_chat_requested :
      (client_stream_id : SId) (payload : V) (stream : Bool) (required_capability : Capability)
      → Event WId SId SubId V
  worker_registered : (worker_id : WId) (capabilities : List Capability) → Event WId SId SubId V
  assignment_cleared : (client_stream_id : SId) → Event WId SId SubId V
  assignment_failed : (client_stream_id : SId) (message : String) → Event WId SId SubId V
  worker_heartbeat : (worker_id : WId) → Event WId SId SubId V
  stream_heartbeat : (client_stream_id : SId) → Event WId SId SubId V
  ticked : Event WId SId SubId V
  session_requested : (subscriber_id : SubId) → Event WId SId SubId V
  session_event : (session_id : SessionId) (event : Session.Event SubId V) → Event WId SId SubId V

unfoldable pub sub_ids : {WId SId SubId V : Type 0} → Event WId SId SubId V → List SubId
unfolding Session.sub_ids
sub_ids (session_requested subscriber_id) = subscriber_id ∷ []
sub_ids (session_event session_id event) = Session.sub_ids event
sub_ids _ = []

pub data ViolationSource : Type 0 where
  worker stream session : String → ViolationSource

pub data Effect (WId SId SubId V : Type 0) : Type 0 where
  dispatch_job :
      (worker_id : WId) (client_stream_id : SId) (capability : Capability) (payload : V)
      → Effect WId SId SubId V
  send_client_error : (client_stream_id : SId) (message : String) → Effect WId SId SubId V
  send_client_done : (client_stream_id : SId) → Effect WId SId SubId V
  session_effect : (effect : Session.Effect SubId V) → Effect WId SId SubId V
  session_created : (session_id : SessionId) (subscriber_id : SubId) → Effect WId SId SubId V
  session_expired : (session_id : SessionId) (entries : List V) → Effect WId SId SubId V
  protocol_violation : (source : ViolationSource) (message : String) → Effect WId SId SubId V

pub record Transition (WId SId SubId V : Type 0) : Type 0 where
  pub state : GatewayState WId SId SubId V
  pub effects : List (Effect WId SId SubId V)

-- The parts of the standard library that `generate_session_id` calls: the hash of two words fed
-- one after the other, and its text in sixteen hexadecimal digits.
pub record Hashing : Type 0 where
  pub finish : ℕ → ℕ → ℕ
  pub hex16 : ℕ → String

unfoldable pub generate_session_id : Hashing → ℕ → ℕ → SessionId
generate_session_id hashing runtime_id counter = hashing.hex16 (hashing.finish runtime_id counter)
