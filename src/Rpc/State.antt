-- ===== src/Rpc/State.antt =====
-- `RpcState`, a session's object table (rsbinder/src/rpc/state.rs).
pub mod Nodes
pub mod Steps
pub mod Async
pub mod Queue
pub mod Gate
pub mod Delivery
pub mod Parked
pub mod Threads
pub mod Turns
pub mod Progress
pub mod Valid
pub mod Balance
pub mod Identity
mod Tests
