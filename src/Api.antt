-- ===== src/Api.antt =====
-- apps/api/app: the tables of the database and the services that read and write them.
pub mod Tables
pub mod Profiles
pub mod Contests
pub mod Community
pub mod Limits
pub mod Addresses
pub mod Submissions
pub mod Runs
pub mod Problems
pub mod Auth
