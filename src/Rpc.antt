-- ===== src/Rpc.antt =====
-- The RPC stack: binder over a byte stream (rsbinder/src/rpc).
pub mod Result
pub mod Address
pub mod Wire
pub mod Framing
pub mod Lifecycle
pub mod State
pub mod Pool
pub mod Obituary
pub mod Calls
