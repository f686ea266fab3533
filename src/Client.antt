-- ===== src/Client.antt =====
-- The client of the SDK's core library: olp-cpp-sdk-core/src/client.
pub mod Backdown
pub mod Hrn
pub mod PendingUrlRequest
pub mod PendingUrlRequests
pub mod Retry
pub mod TaskContext
pub mod Tests
