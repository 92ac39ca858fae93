-- ===== src/Calls.antt =====
-- The local controller of a replica, controller/local_controller.py in
-- packages/core/canyonos_core: which replica a call goes to, how a call is sent on until a replica
-- takes it, and how a caller waits for a result (controller/future.py).
pub mod Addresses
pub mod Forwards
pub mod Waits
pub mod Execute
mod Tests
