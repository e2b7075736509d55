-- ===== src/Shares.antt =====
-- File shares (src/modules/shares).
pub mod Permission
pub mod Validation
pub mod Service
pub mod Change
pub mod Runs
pub mod Limits
pub mod Closing
pub mod Tests
