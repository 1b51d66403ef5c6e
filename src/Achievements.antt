-- ===== src/Achievements.antt =====
-- Achievements (src/achievements).
pub mod Intents
pub mod Progress
pub mod Jobs
pub mod Replay
pub mod Once
pub mod Publisher
pub mod Input
pub mod Catalogue
pub mod Mapper
pub mod Secrets
pub mod Administration
pub mod Rows
pub mod Codes
pub mod Answers
pub mod Rules
pub mod Conservation
