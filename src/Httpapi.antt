-- ===== src/Httpapi.antt =====
-- httpapi/: the HTTP front end.
pub mod Form
pub mod Mux
pub mod Response
pub mod Metrics
pub mod Debuginfod
pub mod Handler
pub mod Service
pub mod Server
