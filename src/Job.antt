-- ===== src/Job.antt =====
-- ironflow/job_executor.go and ironflow/encode_guard.go: one job of a worker, from its assignment to
-- its report.
pub mod Encode
pub mod Checkpoint
pub mod Assignment
pub mod Execute
