-- ===== src/Points.antt =====
-- Deducting and refunding points under idempotent commands.
pub mod Command
pub mod Deduct
pub mod Conservation
pub mod Refund
pub mod Replay
pub mod Once
pub mod Acceptance
pub mod Compensation
pub mod Rejection
pub mod Exclusive
