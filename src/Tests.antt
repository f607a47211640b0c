-- ===== src/Tests.antt =====
-- The definitions run on small inputs, and the theorems at them.
mod Ledger
mod Locking
mod Permission
mod Bucket
mod Transfer
mod Reservation
mod Wire
mod Channel
mod Handler
mod Session
