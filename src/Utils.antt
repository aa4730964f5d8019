-- ===== src/Utils.antt =====
-- The helpers of src/common/utils.
pub mod WorkingDays
pub mod Pagination
pub mod Encryption
pub mod Letters
mod Tests
