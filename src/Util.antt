-- ===== src/Util.antt =====
-- src/util.cpp: trimming, the split of an SQL dump, the environment, and the move of a file.
pub mod Trim
pub mod SplitSql
pub mod Env
pub mod Move
pub mod Token
mod Tests
