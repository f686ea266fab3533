-- ===== src/Utils.antt =====
-- The utilities of the SDK's core library: olp-cpp-sdk-core/src/utils.
pub mod Url
