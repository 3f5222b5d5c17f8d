-- ===== src/Send.antt =====
-- fsthttp/request.go: sending a request to a backend, with the HTTP cache in the guest.
pub mod Choice
pub mod Headers
pub mod Poll
pub mod Dispatch
pub mod Guest
pub mod Weights
pub mod Bounds
pub mod Handles
pub mod Released
pub mod Accounting
mod Tests
