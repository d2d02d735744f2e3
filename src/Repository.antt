-- ===== src/Repository.antt =====
-- internal/repository/postgres: each method runs the SQL that the source writes out, read as a
-- function on the tables. The constraints of the migrations (PRIMARY KEY, UNIQUE, REFERENCES with
-- ON DELETE CASCADE) are part of the statements.
pub mod Users
pub mod RefreshTokens
pub mod Credentials
pub mod LoginChallenges
pub mod PasswordResetFlows
pub mod Deletion
pub mod DeletionJobs
pub mod Effects
pub mod Untouched
pub mod TokenMap
