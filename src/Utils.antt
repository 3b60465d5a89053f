-- ===== src/Utils.antt =====
-- internal/utils: telephone numbers and retries.
pub mod Phone
pub mod Retry
