-- ===== src/Channels.antt =====
-- pkg/channels, the parts that compute.
pub mod Split
