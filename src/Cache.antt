-- ===== src/Cache.antt =====
-- The cache of the SDK's core library: olp-cpp-sdk-core/src/cache and
-- olp-cpp-sdk-core/include/olp/core/utils.
pub mod DefaultCache
pub mod DiskCache
pub mod InMemoryCache
pub mod KeyGenerator
pub mod Keys
pub mod Lru
pub mod ProtectedKeyList
pub mod Tests
