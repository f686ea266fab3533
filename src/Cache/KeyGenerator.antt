-- ===== src/Cache/KeyGenerator.antt =====
-- `KeyGenerator` of olp-cpp-sdk-core/src/cache/KeyGenerator.cpp: the keys under which the cache
-- stores what has been read. A key is a list of bytes.
pub mod Catalog
use here_data_sdk_cpp.Common.{ℕ, suc, List, [], ◌∷◌, ◌++◌, Option, none, some}
use here_data_sdk_cpp.Common.Int.{ℤ, pos, negsuc}
use here_data_sdk_cpp.Common.Decimal.{to_string}
use here_data_sdk_cpp.Geo.TileKey.{TileKey}
use here_data_sdk_cpp.Geo.QuadKey.{to_here_tile}

-- `std::to_string` of an `int64_t`.
unfoldable pub to_string_signed : ℤ → List ℕ
to_string_signed (pos n) = to_string n
to_string_signed (negsuc n) = 45 ∷ to_string (suc n)

-- The parts of a key, one after the other.
abbrev pub joined : List (List ℕ) → List ℕ
joined [] = []
joined (s ∷ l) = s ++ joined l

abbrev pub colons : List ℕ
colons = 58 ∷ 58 ∷ []

-- The version with colons behind it, where there is one.
unfoldable pub version_part : Option ℤ → List ℕ
version_part none = []
version_part (some version) = to_string_signed version ++ colons

unfoldable pub create_api_key : List ℕ → List ℕ → List ℕ → List ℕ
create_api_key hrn service version =
    joined (hrn ∷ colons ∷ service ∷ colons ∷ version ∷ colons ∷ (97 ∷ 112 ∷ 105 ∷ []) ∷ [])

unfoldable pub create_catalog_key : List ℕ → List ℕ
create_catalog_key hrn = joined (hrn ∷ colons ∷ (99 ∷ 97 ∷ 116 ∷ 97 ∷ 108 ∷ 111 ∷ 103 ∷ []) ∷ [])

unfoldable pub create_latest_version_key : List ℕ → List ℕ
create_latest_version_key hrn = joined (
    hrn
    ∷ colons
    ∷ (108 ∷ 97 ∷ 116 ∷ 101 ∷ 115 ∷ 116 ∷ 86 ∷ 101 ∷ 114 ∷ 115 ∷ 105 ∷ 111 ∷ 110 ∷ [])
    ∷ [])

abbrev pub partition_suffix : List ℕ
partition_suffix = 112 ∷ 97 ∷ 114 ∷ 116 ∷ 105 ∷ 116 ∷ 105 ∷ 111 ∷ 110 ∷ []

unfoldable pub create_partition_key : List ℕ → List ℕ → List ℕ → Option ℤ → List ℕ
create_partition_key hrn layer_id partition_id version = joined (
    hrn
    ∷ colons
    ∷ layer_id
    ∷ colons
    ∷ partition_id
    ∷ colons
    ∷ (version_part version)
    ∷ partition_suffix
    ∷ [])

unfoldable pub create_partitions_key : List ℕ → List ℕ → Option ℤ → List ℕ
create_partitions_key hrn layer_id version = joined (
    hrn
    ∷ colons
    ∷ layer_id
    ∷ colons
    ∷ (version_part version)
    ∷ (112 ∷ 97 ∷ 114 ∷ 116 ∷ 105 ∷ 116 ∷ 105 ∷ 111 ∷ 110 ∷ 115 ∷ [])
    ∷ [])

unfoldable pub create_layer_versions_key : List ℕ → ℤ → List ℕ
create_layer_versions_key hrn version = joined (
    hrn
    ∷ colons
    ∷ (to_string_signed version)
    ∷ colons
    ∷ (108 ∷ 97 ∷ 121 ∷ 101 ∷ 114 ∷ 86 ∷ 101 ∷ 114 ∷ 115 ∷ 105 ∷ 111 ∷ 110 ∷ 115 ∷ [])
    ∷ [])

unfoldable pub create_quad_tree_key : List ℕ → List ℕ → TileKey → Option ℤ → ℤ → List ℕ
create_quad_tree_key hrn layer_id root version depth = joined (
    hrn
    ∷ colons
    ∷ layer_id
    ∷ colons
    ∷ (to_here_tile root)
    ∷ colons
    ∷ (version_part version)
    ∷ (to_string_signed depth)
    ∷ colons
    ∷ (113 ∷ 117 ∷ 97 ∷ 100 ∷ 116 ∷ 114 ∷ 101 ∷ 101 ∷ [])
    ∷ [])

abbrev pub data_suffix : List ℕ
data_suffix = 68 ∷ 97 ∷ 116 ∷ 97 ∷ []

unfoldable pub create_data_handle_key : List ℕ → List ℕ → List ℕ → List ℕ
create_data_handle_key hrn layer_id data_handle =
    joined (hrn ∷ colons ∷ layer_id ∷ colons ∷ data_handle ∷ colons ∷ data_suffix ∷ [])
