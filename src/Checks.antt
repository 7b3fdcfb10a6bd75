-- ===== src/Checks.antt =====
-- A concrete kernel on which the theorems are tried.
pub mod Zero
pub mod Kernel
pub mod Examples
pub mod Tree
pub mod Stages
pub mod Staffing
