-- ===== src/Main.antt =====
-- infra/pulumi/__main__.py: the program that registers the resources and runs the phases.
pub mod Config
pub mod Selection
pub mod Register
pub mod Run
pub mod Effects
pub mod Preview
pub mod Placed
pub mod Created
pub mod Fits
mod Tests
