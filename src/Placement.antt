-- ===== src/Placement.antt =====
-- infra/pulumi/modules/placement.py
pub mod Plan
pub mod Client
pub mod Planner
mod Tests
