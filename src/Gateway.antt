-- ===== src/Gateway.antt =====
-- gateway/: the HTTP service's background runs.
pub mod Runs
pub mod Manager
pub mod Events
pub mod Requests
pub mod Service
