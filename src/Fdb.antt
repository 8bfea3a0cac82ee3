-- ===== src/Fdb.antt =====
-- infra/pulumi/modules/sdn_fdb.py, which installs the static bridge entries of the overlay.
pub mod Settings
pub mod Ssh
pub mod Lines
pub mod Discover
pub mod Install
pub mod Run
mod Tests
