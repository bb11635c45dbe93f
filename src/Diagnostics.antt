-- ===== src/Diagnostics.antt =====
-- The diagnostics of the library: senders of messages with their subscribers (src/DiagnosticsSender.cpp),
-- contexts on a sender (src/DiagnosticsContext.cpp) and a subscriber that prints
-- (src/DiagnosticsStreamReporter.cpp).
pub mod Sender
pub mod Context
pub mod Reporter
mod Tests
