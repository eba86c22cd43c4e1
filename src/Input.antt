-- ===== src/Input.antt =====
-- internal/input: the HID protocol, the compilation of action batches, and the exclusive lease
-- under which they are executed.
pub mod Types
pub mod Protocol
pub mod Keys
pub mod Actions
pub mod Lease
pub mod Executor
mod RunTests
pub mod Tests
