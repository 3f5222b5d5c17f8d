-- ===== src/Backend.antt =====
-- fsthttp/backend.go: dynamic backends and their options; internal/abi/fastly/types.go:
-- `BackendConfigOptions`, the form of the options on the host. An option under a bit of the mask is
-- an `Option`; a bit of its own is a Boolean.
pub mod Options
pub mod Config
pub mod Populate
pub mod Timeouts
pub mod Said
pub mod Latest
mod Tests
