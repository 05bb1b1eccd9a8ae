-- ===== src/Examples.antt =====
-- Concrete inputs, tests of the definitions on them, and the theorems applied to them.
mod Fixtures
mod Ids
mod Errors
mod Steps
mod Suspensions
mod Upcasters
mod Jobs
mod Parallels
mod Dedups
mod Projections
mod Workers
mod Signatures
mod Configs
