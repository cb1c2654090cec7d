-- ===== src/TcpFlow.antt =====
-- server/include/TcpFlow.h and server/src/TcpFlow.cpp: the connection of one client.
pub mod Buffer
pub mod Write
pub mod Requests
pub mod Callback
pub mod Reassembly
pub mod Messages
pub mod Faults
pub mod Arbitrary
pub mod Responses
pub mod Semantics
pub mod Ideal
pub mod Refines
pub mod Concurrent
