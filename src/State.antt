-- ===== src/State.antt =====
-- protocol/src/state: what the client knows of the server's channels and clients.
pub mod Clients
pub mod Channels
