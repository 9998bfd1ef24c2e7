-- ===== src/BundleMachine.antt =====
-- state_machines/bundle-state-machine.h and .cc: chunks of snapshots are packed into bundles.
pub mod Table
pub mod Fields
pub mod Handlers
pub mod Ready
pub mod Steps
pub mod Bundling
pub mod Duties
pub mod Outside
pub mod Run
pub mod Tests
