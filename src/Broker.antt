-- ===== src/Broker.antt =====
-- The service broker (cmd/service-broker/).
pub mod State
pub mod Setup
pub mod Requests
pub mod Loop
pub mod Single
pub mod Total
pub mod Settings
pub mod Watcher
pub mod Routing
pub mod Main
pub mod Modes
