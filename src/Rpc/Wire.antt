-- ===== src/Rpc/Wire.antt =====
-- Messages, readers and the frame header that the wire codecs share (rsbinder/src/rpc/wire.rs).
pub mod Readers
pub mod ReaderLaws
pub mod R34
pub mod Transaction
pub mod RoundTrip
pub mod Strict
pub mod Handshake
pub mod Stream
pub mod Connect
pub mod FdStream
pub mod Android13
pub mod Tables
pub mod WireAddress
pub mod Android13Codec
pub mod Transaction13
pub mod Reply13
pub mod RoundTrip13
mod Tests
