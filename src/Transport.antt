-- ===== src/Transport.antt =====
-- endpoint/transport.py: the normal form of server URLs and the policy of federation.
pub mod Url
pub mod Policy
pub mod Laws
