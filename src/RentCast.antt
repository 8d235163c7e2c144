-- ===== src/RentCast.antt =====
-- The RentCast side (hailsys/rentcast/).
pub mod Client
pub mod Pull
pub mod Check
pub mod Step
pub mod ZipPull
