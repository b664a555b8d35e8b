-- ===== src/Server.antt =====
-- endpoint/server_core.py: the server's state, its request handlers and the inbox of a client.
pub mod State
pub mod Access
pub mod Accept
pub mod Respects
pub mod Handlers
pub mod Federation
pub mod Inbox
pub mod Steps
