-- ===== src/Read.antt =====
-- The reading of data services: olp-cpp-sdk-dataservice-read/src.
pub mod NamedMutex
