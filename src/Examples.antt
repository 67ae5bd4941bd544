-- ===== src/Examples.antt =====
-- The theorems at concrete inputs, and tests of the definitions.
pub mod Rules
pub mod Api
pub mod Proc
pub mod Tracers
pub mod Daemon
pub mod System
pub mod Pairing
pub mod Kernel
pub mod Loading
pub mod Cli
pub mod Builtin
pub mod Dropped
