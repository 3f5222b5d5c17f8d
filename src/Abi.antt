-- ===== src/Abi.antt =====
-- internal/abi/fastly: the status codes of host calls, and the errors that they become.
pub mod Status
pub mod Errors
pub mod Answers
pub mod SendErrors
pub mod Causes
pub mod Laws
mod Tests
