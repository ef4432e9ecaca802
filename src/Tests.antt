-- ===== src/Tests.antt =====
-- Runs on concrete inputs.
pub mod Demo
mod Runs
mod Sound
mod Commands
mod Parts
mod Texts
mod Platforms
mod Requests
mod Messages
mod Failures
mod Working
mod Changes
mod Sessions
mod Service
mod Lives
mod Queries
mod Trusted
mod Answers
mod Allocations
mod Overruns
