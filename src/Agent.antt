-- ===== src/Agent.antt =====
-- pkg/agent, the parts with a state of their own.
pub mod Steering
pub mod Compression
