-- ===== src/Plan.antt =====
-- The parts of src/plan.rs.
pub mod Wire
pub mod Identity
pub mod Verify
pub mod Compile
pub mod Distinct
pub mod Checked
