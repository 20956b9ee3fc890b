-- ===== src/Store.antt =====
-- The rows of the database and the statements that the program runs on it.
pub mod Rows
pub mod Database
pub mod Example
