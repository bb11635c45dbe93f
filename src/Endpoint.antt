-- ===== src/Endpoint.antt =====
-- A network endpoint, which accepts connections or exchanges packets: src/NetworkEndpoint.cpp over
-- src/Posix/NetworkEndpointPosix.cpp. What the operating system answers is an argument of the
-- function that makes the call, and what the code does to the outside is a trace of effects.
pub mod State
pub mod Open
pub mod Processor
pub mod System
pub mod Windows
mod Tests
