-- ===== src/Verify.antt =====
-- verify: the helpers and fixtures of the checks of a running cluster.
pub mod Session
pub mod Kv
pub mod Ipa
pub mod Fixtures
pub mod Browser
pub mod Login
pub mod Proxy
pub mod Kubectl
pub mod Tokens
pub mod Grafana
pub mod Gitlab
pub mod Conditions
pub mod Cluster
pub mod Vault
mod Tests
