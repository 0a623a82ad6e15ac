-- ===== src/Transport.antt =====
-- internal/transport/tcp: the listener of the server and the client of a slave.
pub mod Connection
pub mod Listener
pub mod Client
