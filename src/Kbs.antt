-- ===== src/Kbs.antt =====
-- kbs: the key broker service.
pub mod Prometheus
pub mod UrlPath
pub mod ResourceDesc
pub mod LocalFs
pub mod PluginManager
pub mod Resource
pub mod Session
pub mod Attestation
pub mod Admin
pub mod Token
pub mod Api
mod Tests
