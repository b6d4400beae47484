-- ===== src/Worker.antt =====
-- key-aggregation-server/app/worker/aggregation.py: the aggregation worker.
pub mod Runs
pub mod Inputs
pub mod Jobs
pub mod Maintenance
pub mod Accepted
pub mod Sums
pub mod Published
pub mod Results
mod Tests
