-- ===== src/Runtime.antt =====
-- Values and the interface to the host: src/runtime.
pub mod Value
pub mod Transport
pub mod Http
pub mod Display
pub mod Host
pub mod Builtin
