-- ===== src/Persistence.antt =====
-- key-aggregation-server/app/persistence/database.py: the transactional store.
pub mod Schema
pub mod Tx
pub mod Statements
pub mod Transition
pub mod Rounds
pub mod Setup
pub mod KeyContext
pub mod KeyTasks
pub mod FinalKeys
pub mod Updates
pub mod Jobs
pub mod Retention
pub mod Ensures
pub mod Quiet
pub mod Methods
pub mod Requests
pub mod Lifecycle
pub mod Audit
pub mod Retry
pub mod Claims
pub mod Purge
pub mod Failure
pub mod Activation
pub mod Members
mod Tests
