-- ===== src/Storage.antt =====
-- endpoint/storage.py: the server's database and the client's files.
pub mod Files
pub mod Queue
pub mod Replay
pub mod Content
pub mod Client
pub mod Outbox
