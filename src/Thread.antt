-- ===== src/Thread.antt =====
-- The threads of the SDK's core library: olp-cpp-sdk-core/src/thread and
-- olp-cpp-sdk-core/include/olp/core/thread.
pub mod PriorityQueue
pub mod SyncQueue
pub mod Tests
