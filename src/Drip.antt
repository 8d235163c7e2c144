-- ===== src/Drip.antt =====
-- Drip campaigns: follow-ups to a first send (hailsys/email/dripstart.py, dripactions.py, dripstep.py).
pub mod Plan
pub mod Campaign
pub mod Followup
