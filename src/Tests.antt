-- ===== src/Tests.antt =====
-- Concrete machines, blocks and images, and the theorems at them.
mod Lifecycle
mod Booted
mod Fixtures
mod Gic
mod Executor
mod Manager
mod Stdout
mod Values
mod Kill
mod Protocol
mod Files
mod Interrupts
mod Crash
mod Payload
mod Console
mod Coredump
mod Tools
