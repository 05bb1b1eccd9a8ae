-- ===== src/Projection.antt =====
-- ironflow/projection_runner.go and ironflow/projection.go: a projection's runner, which folds the
-- events of a projection into states, one for each partition, and saves them while it holds the
-- projection's lease. Objects of JSON are of a type `O`, other values of a type `V`; the server's
-- answers and the handler are parameters, over a world of type `W` where they have effects.
pub mod Errors
pub mod Batch
pub mod Sorted
pub mod Managed
pub mod External
pub mod Load
pub mod Process
pub mod Runner
pub mod Stream
