-- ===== src/Common.antt =====
-- pkg/common: what the agent and the server share.
pub mod Selector
pub mod Messages
