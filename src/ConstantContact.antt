-- ===== src/ConstantContact.antt =====
-- The Constant Contact client (hailsys/constantcontact/).
pub mod Errors
pub mod Budget
pub mod Transport
pub mod Contacts
pub mod Unsubs
pub mod Bounces
