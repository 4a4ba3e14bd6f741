-- ===== src/Server.antt =====
-- pkg/server: what the server does with registration entries, join tokens and CA certificates.
pub mod DataStore
pub mod Registration
pub mod JoinTokenPlugin
pub mod CaManager
pub mod Node
pub mod BaseSvid
pub mod Gorm
pub mod SqlStore
