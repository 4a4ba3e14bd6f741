-- ===== src/Agent.antt =====
-- pkg/agent: the agent's cache of SVIDs and its manager, the Workload API and a workload attestor.
pub mod Subscribers
pub mod Cache
pub mod Manager
pub mod K8sPlugin
pub mod Workload
