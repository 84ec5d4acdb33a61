-- ===== src/Listener.antt =====
-- listener.py: how messages come in.
pub mod Framer
pub mod FromForwarder
pub mod Storage
pub mod Cef
pub mod Reporter
mod Tests
