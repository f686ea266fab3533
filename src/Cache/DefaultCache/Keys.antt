-- ===== src/Cache/DefaultCache/Keys.antt =====
-- The keys that `DefaultCacheImpl` makes: an expiry key is longer than its key, and the arithmetic
-- of the size that is counted.
use here_data_sdk_cpp.Common.{ℕ, ◌-◌, ◌^◌, ◌<◌, ◌≤◌, ◌≡◌, ◌≢◌, ap, arith, length, length-append}
use here_data_sdk_cpp.Cache.ProtectedKeyList.{Key}
use here_data_sdk_cpp.Cache.DefaultCache.{create_expiry_key, expiry_suffix, less}

pub create_expiry_key-ne : (key : Key) → create_expiry_key key ≢ key
unfolding create_expiry_key
create_expiry_key-ne key e = omega (arith, ap length e, length-append key expiry_suffix)

-- The size without what is removed, where it counts that and more.
pub less_lem :
    (size removed : ℕ) → removed ≤ size → size < 2 ^ 64 → less size removed ≡ size - removed
unfolding less
less_lem size removed le lt = omega arith
