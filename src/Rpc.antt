-- ===== src/Rpc.antt =====
-- The client of a wallet's JSON-RPC server (src/bitcoinrpc.cpp): HTTP over one connection for each call, and
-- what each call reads of the reply.
pub mod Text
pub mod Http
pub mod Replies
pub mod Calls
pub mod Lines
pub mod RoundTrip
pub mod Reply
pub mod Outcomes
pub mod Answered
