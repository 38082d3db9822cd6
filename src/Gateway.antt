-- ===== src/Gateway.antt =====
-- The gateway's kernel: `State` has its data, `Sweep` and `Kernel` its transition function;
-- `ChannelRegistry` has the channels, and the other modules the proofs.
pub mod State
pub mod Sweep
pub mod Kernel
pub mod Dispatch
pub mod Streams
pub mod Sessions
pub mod Workers
pub mod Pool
pub mod Active
pub mod Invariant
pub mod Deadlines
pub mod Departures
pub mod ChannelRegistry
