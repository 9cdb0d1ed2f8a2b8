-- ===== src/Tools.antt =====
-- The tools that the agent may call: pkg/tools.
pub mod Registry
