-- ===== src/Connection.antt =====
-- A TCP connection: src/NetworkConnection.cpp over src/Posix/NetworkConnectionPosix.cpp.
-- What the operating system answers to a call is an argument of the function that makes the call,
-- and what the code does to the outside is a trace of effects.
pub mod State
pub mod Calls
pub mod Processor
pub mod System
pub mod Windows
mod Tests
