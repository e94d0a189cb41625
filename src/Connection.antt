-- ===== src/Connection.antt =====
-- internal/connection: the connections of a workspace to an identity provider.
pub mod Model
pub mod Repository
pub mod Service
pub mod Operations
pub mod Atomic
pub mod Effects
pub mod Table
pub mod Changes
pub mod Recorded
pub mod Outcome
pub mod Calls
pub mod Invariant
pub mod Step
pub mod Lifecycle
pub mod View
pub mod Views
pub mod Activation
pub mod Editing
pub mod Given
pub mod Rotation
pub mod Census
pub mod Counted
pub mod RotatedRow
pub mod RotatedTable
pub mod Rotated
pub mod Pending
pub mod Completed
mod Tests
