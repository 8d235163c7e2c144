-- ===== src/Email/Properties.antt =====
-- What one delivery guarantees, by the rule of Email/Rule.antt.
pub mod Uniform
pub mod Scheduling
pub mod OneCall
pub mod Settled
