-- ===== src/Symstore.antt =====
-- symstore/: the path grammar of the symbol server.
pub mod Constants
pub mod DebugId
pub mod Parse
