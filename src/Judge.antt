-- ===== src/Judge.antt =====
-- The judge worker (apps/judge/sahujudge), a module for each of its files.
pub mod Failures
pub mod Checkers
pub mod Languages
pub mod Sandbox
pub mod Engine
pub mod Pipeline
pub mod Reaper
pub mod Workers
pub mod Runs
pub mod Supervisor
pub mod Process
pub mod Docker
