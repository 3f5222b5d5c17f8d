-- ===== src/HttpCache.antt =====
-- fsthttp/cache.go: the HTTP cache in the guest. Storage actions, and the options of a write.
pub mod Seconds
pub mod Options
pub mod Candidate
pub mod Setters
pub mod Finalize
pub mod Found
pub mod Run
pub mod Apply
pub mod Transactions
pub mod Outcome
pub mod Freshness
pub mod Getters
mod Tests
use compute_sdk_go.Common.{ℕ}

-- `HTTPCacheStorageAction`; the type is a `uint32`, so that other numbers can occur.
pub data StorageAction : Type 0 where
  insert update do_not_store record_uncacheable : StorageAction
  unknown : ℕ → StorageAction
