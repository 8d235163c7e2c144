-- ===== src/Email/Rule.antt =====
-- A rule for the properties of one delivery.
pub mod Phases
pub mod Steps
pub mod Attempt
pub mod Whole
