-- ===== src/Database.antt =====
-- src/app_database.rs over the tables of migrations/: what a call needs from outside is one `Link`,
-- how far it gets to the server, and the statement itself is a function on the tables.
pub mod Tables
pub mod Link
pub mod Miners
pub mod Ledger
pub mod Rounds
pub mod Calls
pub mod Valid
pub mod Account
mod Tests
