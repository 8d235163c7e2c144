-- ===== src/Send.antt =====
-- hailsys/email/send.py: from a send list to queued rows.
pub mod Queue
