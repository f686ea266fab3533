-- ===== src/Cache/Tests.antt =====
-- Concrete runs of the cache.
use here_data_sdk_cpp.Common.{
  ◌≡◌, refl, arith, true, false, List, [], ◌∷◌, some, ℕ, length, if◌then◌else◌,
}
use here_data_sdk_cpp.Cache.ProtectedKeyList.{
  Key, ProtectedKeyList, is_protected, protect, release, serialize, deserialize, no_keys,
  starts_with, is_prefix, serialize_keys, last_byte, add_sizes, is_size,
}
use here_data_sdk_cpp.Cache.ProtectedKeyList.Protected.{
  Sorted, sorted, all_above, has_prefix, is_protected_iff,
}
use here_data_sdk_cpp.Cache.ProtectedKeyList.Change.{is_protected-protect}
use here_data_sdk_cpp.Cache.ProtectedKeyList.Release.{blocked, without, released, release-released}
use here_data_sdk_cpp.Cache.ProtectedKeyList.Serial.{texts, no_zero, deserialize-serialize}

-- "a::" and "b::".
abbrev hrn_a : Key
hrn_a = 97 ∷ 58 ∷ 58 ∷ []

abbrev hrn_b : Key
hrn_b = 98 ∷ 58 ∷ 58 ∷ []

-- "b::key".
abbrev hrn_b_key : Key
hrn_b_key = 98 ∷ 58 ∷ 58 ∷ 107 ∷ 101 ∷ 121 ∷ []

abbrev two_keys : ProtectedKeyList
two_keys = record { protected_data = hrn_a ∷ hrn_b ∷ []; size_written = 0; dirty = true }

two_keys-Sorted : Sorted two_keys.protected_data
unfolding Sorted sorted all_above
two_keys-Sorted = refl

two_keys-stopped : blocked (without hrn_a two_keys.protected_data) hrn_b_key ≡ true
unfolding blocked without starts_with is_prefix
two_keys-stopped = refl

two_keys-free : blocked two_keys.protected_data hrn_a ≡ false
unfolding blocked is_prefix starts_with
two_keys-free = refl

is_protected_iff_example :
    is_protected two_keys hrn_b_key ≡ has_prefix two_keys.protected_data hrn_b_key
is_protected_iff_example = is_protected_iff two_keys hrn_b_key two_keys-Sorted

is_protected-protect_example :
    is_protected (protect two_keys ((100 ∷ []) ∷ [])).0 (100 ∷ 101 ∷ []) ≡ (
      if has_prefix ((100 ∷ []) ∷ []) (100 ∷ 101 ∷ [])
      then true
      else is_protected two_keys (100 ∷ 101 ∷ []))
is_protected-protect_example =
    is_protected-protect two_keys ((100 ∷ []) ∷ []) (100 ∷ 101 ∷ []) two_keys-Sorted

release-released_example :
    ((release two_keys (hrn_a ∷ [])).0.protected_data
      ≡ released two_keys.protected_data (hrn_a ∷ []))
    × Sorted (release two_keys (hrn_a ∷ [])).0.protected_data
release-released_example = release-released two_keys (hrn_a ∷ []) two_keys-Sorted

two_keys_texts : texts two_keys.protected_data ≡ true
unfolding texts no_zero
two_keys_texts = refl

deserialize-serialize_example :
    (value : List ℕ) × (serialize two_keys
      ≡ some (record two_keys { dirty = false; size_written = length value }, value))
    × (deserialize no_keys (some value)
        ≡ (record two_keys { dirty = false; size_written = length value }, true))
deserialize-serialize_example =
    deserialize-serialize two_keys two_keys-Sorted two_keys_texts (omega arith)

-- Each key is followed by the byte 0.
serialize_two :
    (serialize two_keys)
    ≡ some (
      record two_keys { dirty = false; size_written = 8 },
      97 ∷ 58 ∷ 58 ∷ 0 ∷ 98 ∷ 58 ∷ 58 ∷ 0 ∷ [],
    )
unfolding serialize serialize_keys last_byte add_sizes is_size
serialize_two = refl
