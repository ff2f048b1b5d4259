-- ===== src/Server.antt =====
-- src/polodb: the state of the server.
pub mod AppContext
pub mod Cursors
pub mod Examples
