-- ===== src/Cleanup.antt =====
-- infra/pulumi/modules/pve_cleanup.py, which removes storage volumes that no VM owns.
pub mod Settings
pub mod Mac
pub mod Client
pub mod Orphans
pub mod Remove
pub mod Run
mod Tests
