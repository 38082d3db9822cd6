-- ===== src/Gateway/ChannelRegistry.antt =====
-- crates/prosthetic-conscience/src/gateway/channel_registry.rs: the channels of the workers, streams
-- and subscribers, by identifiers. An identifier is a text; the one that `Uuid::new_v4` makes is an
-- argument of each registration.
pub mod Handles
use prosthetic_conscience.Prelude.{ℕ, String, string_eq, List, [], Option, length}
use prosthetic_conscience.Map.{Map, get, update, without}

abbrev pub WorkerId : Type 0
WorkerId = String

abbrev pub ClientStreamId : Type 0
ClientStreamId = String

abbrev pub SubscriberId : Type 0
SubscriberId = String

pub record ChannelRegistry (WorkerHandle StreamHandle SubscriberHandle : Type 0) : Type 0 where
  pub workers : Map WorkerId WorkerHandle
  pub streams : Map ClientStreamId StreamHandle
  pub subscribers : Map SubscriberId SubscriberHandle

module _ {WorkerHandle StreamHandle SubscriberHandle : Type 0} where
  abbrev pub new : ChannelRegistry WorkerHandle StreamHandle SubscriberHandle
  new = record { workers = []; streams = []; subscribers = [] }

  unfoldable pub register_worker :
      ChannelRegistry WorkerHandle StreamHandle SubscriberHandle
      → (fresh : WorkerId) → WorkerHandle
      → ChannelRegistry WorkerHandle StreamHandle SubscriberHandle
  register_worker r fresh handle = record r { workers = update r.workers fresh handle }

  abbrev pub worker_count : ChannelRegistry WorkerHandle StreamHandle SubscriberHandle → ℕ
  worker_count r = length r.workers

  abbrev pub stream_count : ChannelRegistry WorkerHandle StreamHandle SubscriberHandle → ℕ
  stream_count r = length r.streams

  -- The registry that is left, and the handle.
  unfoldable pub take_worker :
      ChannelRegistry WorkerHandle StreamHandle SubscriberHandle
      → WorkerId
      → ChannelRegistry WorkerHandle StreamHandle SubscriberHandle × Option WorkerHandle
  take_worker r worker_id =
      (record r { workers = without r.workers worker_id }, get r.workers worker_id)

  unfoldable pub clone_stream :
      ChannelRegistry WorkerHandle StreamHandle SubscriberHandle
      → ClientStreamId
      → Option StreamHandle
  clone_stream r stream_id = get r.streams stream_id

  unfoldable pub take_stream :
      ChannelRegistry WorkerHandle StreamHandle SubscriberHandle
      → ClientStreamId
      → ChannelRegistry WorkerHandle StreamHandle SubscriberHandle × Option StreamHandle
  take_stream r stream_id =
      (record r { streams = without r.streams stream_id }, get r.streams stream_id)

  unfoldable pub register_stream :
      ChannelRegistry WorkerHandle StreamHandle SubscriberHandle
      → (fresh : ClientStreamId) → StreamHandle
      → ChannelRegistry WorkerHandle StreamHandle SubscriberHandle
  register_stream r fresh handle = record r { streams = update r.streams fresh handle }

  unfoldable pub register_subscriber :
      ChannelRegistry WorkerHandle StreamHandle SubscriberHandle
      → (fresh : SubscriberId) → SubscriberHandle
      → ChannelRegistry WorkerHandle StreamHandle SubscriberHandle
  register_subscriber r fresh handle = record r { subscribers = update r.subscribers fresh handle }

  abbrev pub subscriber_count : ChannelRegistry WorkerHandle StreamHandle SubscriberHandle → ℕ
  subscriber_count r = length r.subscribers

  unfoldable pub clone_subscriber :
      ChannelRegistry WorkerHandle StreamHandle SubscriberHandle
      → SubscriberId
      → Option SubscriberHandle
  clone_subscriber r subscriber_id = get r.subscribers subscriber_id

  unfoldable pub take_subscriber :
      ChannelRegistry WorkerHandle StreamHandle SubscriberHandle
      → SubscriberId
      → ChannelRegistry WorkerHandle StreamHandle SubscriberHandle × Option SubscriberHandle
  take_subscriber r subscriber_id = (
    record r { subscribers = without r.subscribers subscriber_id },
    get r.subscribers subscriber_id,
  )
