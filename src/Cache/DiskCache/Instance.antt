-- ===== src/Cache/DiskCache/Instance.antt =====
-- A database in memory that answers as LevelDB documents: its entries in their order, where it can
-- refuse to delete some keys.
use here_data_sdk_cpp.Common.{
  ◌≡◌, refl, Bool, true, false, List, [], ◌∷◌, none, if◌then◌else◌, Bool-cases, inl, inr,
}
use here_data_sdk_cpp.Cache.ProtectedKeyList.{Key}
use here_data_sdk_cpp.Cache.Lru.Node.{remove}
use here_data_sdk_cpp.Cache.DiskCache.{Entries, BatchOp, LevelDb}
use here_data_sdk_cpp.Cache.DiskCache.Entries.{Sorted, after, Sorted-after, Sorted-remove, Answers}

abbrev pub Store : Type 0
Store = (l : Entries) × Sorted l

abbrev pub nothing : Key → Bool
nothing key = false

module _ (dec : Discrete Key) (refuses : Key → Bool) where
  abbrev pub store_write : Store → List BatchOp → Store × Bool
  store_write d batch = ((after dec batch d.0, Sorted-after dec batch d.0 d.1), true)

  abbrev pub store_delete : Store → Key → Store × Bool
  store_delete d key =
      if refuses key
      then (d, false)
      else ((remove dec key d.0, Sorted-remove dec key d.0 d.1), true)

  abbrev pub store : LevelDb Store Bool
  store = record {
    entries = λ d. d.0;
    write = store_write;
    delete = store_delete;
    put = λ d key value. store_write d (BatchOp.batch_put key value ∷ []);
    compact_range = λ d. d;
    files_at_level0 = λ d. 0;
    environment_size = λ d. none;
    approximate_size = λ d. 0;
    ok = λ status. status;
    is_not_found = λ status. false;
    is_invalid_argument = λ status. false;
    is_corruption = λ status. false;
    is_io_error = λ status. if status then false else true;
    is_not_supported_error = λ status. false;
  }

  store_deleted :
      (d : Store) (key : Key)
      → (store_delete d key).0.0 ≡ (if (store_delete d key).1 then remove dec key d.0 else d.0)
  store_deleted d key = elim (Bool-cases (refuses key)) [
    | inl refused ↦ rw refused refl
    | inr accepted ↦ rw accepted refl
  ]

  pub store-Answers : Answers dec store
  unfolding after
  store-Answers = record {
    sorted = λ d. d.1;
    written = λ d batch. refl;
    deleted = store_deleted;
    stored = λ d k v. refl;
    compacted = λ d. refl;
  }
