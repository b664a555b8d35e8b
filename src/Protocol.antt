-- ===== src/Protocol.antt =====
-- endpoint/protocol.py: the validation of every object that crosses the network.
pub mod Canonical
pub mod Patterns
pub mod Limits
pub mod Parts
pub mod Content
pub mod Delivery
pub mod Strict
pub mod Delivered
