-- ===== src/Ledger.antt =====
-- The points ledger: what the services owe to loyalty_profiles and points_transactions together.
pub mod Steps
