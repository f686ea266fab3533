-- ===== src/Cache/KeyGenerator/Catalog.antt =====
-- The keys of one catalog, and their kinds.
use here_data_sdk_cpp.Common.{ℕ, ◌≡◌, refl, arith, true, List, [], ◌∷◌, ◌++◌, Option}
use here_data_sdk_cpp.Common.Int.{ℤ}
use here_data_sdk_cpp.Geo.TileKey.{TileKey}
use here_data_sdk_cpp.Cache.KeyGenerator.{
  create_api_key, create_catalog_key, create_latest_version_key, create_partition_key,
  create_partitions_key, create_layer_versions_key, create_quad_tree_key, create_data_handle_key,
}
use here_data_sdk_cpp.Cache.ProtectedKeyList.{
  Key, ProtectedKeyList, starts_with, protect, is_protected,
}
use here_data_sdk_cpp.Cache.ProtectedKeyList.Protected.{Sorted, has_prefix}
use here_data_sdk_cpp.Cache.ProtectedKeyList.Change.{is_protected-protect}

-- The keys that belong to a catalog.
pub data CatalogKey (hrn : Key) : Key → Type 0 where
  api : (service version : List ℕ) → CatalogKey hrn (create_api_key hrn service version)
  catalog : CatalogKey hrn (create_catalog_key hrn)
  latest_version : CatalogKey hrn (create_latest_version_key hrn)
  one_partition :
      (layer_id partition_id : List ℕ) (version : Option ℤ)
      → CatalogKey hrn (create_partition_key hrn layer_id partition_id version)
  all_partitions :
      (layer_id : List ℕ) (version : Option ℤ)
      → CatalogKey hrn (create_partitions_key hrn layer_id version)
  layer_versions : (version : ℤ) → CatalogKey hrn (create_layer_versions_key hrn version)
  quad_tree :
      (layer_id : List ℕ) (root : TileKey) (version : Option ℤ) (depth : ℤ)
      → CatalogKey hrn (create_quad_tree_key hrn layer_id root version depth)
  data_handle :
      (layer_id handle : List ℕ) → CatalogKey hrn (create_data_handle_key hrn layer_id handle)

starts_with-append : (p s : Key) → starts_with p (p ++ s) ≡ true
unfolding starts_with
starts_with-append [] s = refl
starts_with-append (x ∷ p) s = ground (arith, starts_with-append p s)

CatalogKey-starts_with : (hrn key : Key) → CatalogKey hrn key → starts_with hrn key ≡ true
unfolding create_api_key create_catalog_key create_latest_version_key create_partition_key
    create_partitions_key create_layer_versions_key create_quad_tree_key create_data_handle_key
CatalogKey-starts_with hrn _ (api service version) = starts_with-append hrn _
CatalogKey-starts_with hrn _ catalog = starts_with-append hrn _
CatalogKey-starts_with hrn _ latest_version = starts_with-append hrn _
CatalogKey-starts_with hrn _ (one_partition l p v) = starts_with-append hrn _
CatalogKey-starts_with hrn _ (all_partitions l v) = starts_with-append hrn _
CatalogKey-starts_with hrn _ (layer_versions v) = starts_with-append hrn _
CatalogKey-starts_with hrn _ (quad_tree l r v d) = starts_with-append hrn _
CatalogKey-starts_with hrn _ (data_handle l h) = starts_with-append hrn _

-- Once the name of a catalog is given to `Protect`, on a list in order, every key that
-- `KeyGenerator` makes for the catalog is protected.
pub CatalogKey-is_protected :
    (s : ProtectedKeyList) (hrn key : Key)
    → Sorted s.protected_data
    → CatalogKey hrn key
    → is_protected (protect s (hrn ∷ [])).0 key ≡ true
unfolding has_prefix
CatalogKey-is_protected s hrn key h k =
    ground (arith, is_protected-protect s (hrn ∷ []) key h, CatalogKey-starts_with hrn key k)
