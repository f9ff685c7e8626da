-- ===== src/Room.antt =====
-- packages/fleet-worker/src/room-control.mjs and room-tasks.mjs: the Room authority that runs on
-- the leader's device, over its local store.
pub mod Types
pub mod Ledger
pub mod Registry
pub mod Rooms
pub mod Tasks
pub mod Messages
pub mod Execution
pub mod Control
pub mod Authority
pub mod Lifecycle
pub mod Writes
pub mod Claims
pub mod Progress
pub mod Completion
pub mod Cancellation
pub mod Subtree
pub mod Delegation
pub mod Safety
pub mod Guarantees
pub mod Receipts
pub mod Members
pub mod Hidden
pub mod Pages
