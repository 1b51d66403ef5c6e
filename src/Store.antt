-- ===== src/Store.antt =====
-- The database (prisma/schema.prisma) and its transactions (src/prisma/profile-transaction.ts).
pub mod Types
pub mod Tx
pub mod Profiles
pub mod Rules
pub mod Retry
