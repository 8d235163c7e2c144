-- ===== src/Tests.antt =====
-- Tests of the shared definitions.
mod Texts
mod Deliveries
mod Pulls
mod Checks
mod Drips
mod Followups
mod Syncs
mod SendLists
mod Bounces
mod Queues
