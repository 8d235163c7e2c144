-- ===== src/Email.antt =====
-- The send engine (hailsys/email/).
pub mod Store
pub mod FirstName
pub mod Env
pub mod Engine
pub mod Rule
pub mod Rows
pub mod Batch
pub mod Resume
pub mod Properties
