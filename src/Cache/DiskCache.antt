-- ===== src/Cache/DiskCache.antt =====
-- `DiskCache` of olp-cpp-sdk-core/src/cache/DiskCache.cpp and .h over an open LevelDB database,
-- which is a parameter: what an iterator reads from the first entry to the end, and the calls that
-- change it. The thread that `ApplyBatch` starts is an operation of its own.
pub mod Entries
pub mod Contiguous
pub mod Prefix
pub mod Lookup
pub mod Open
pub mod Instance
pub mod Tests
use mathlib.Core.Logic.{ite}
use here_data_sdk_cpp.Common.{
  ℕ, zero, suc, ◌+◌, ◌-◌, ◌^◌, ◌≡◌, Bool, true, false, not, ◌&&◌, List, [], ◌∷◌, Option, none, some,
  length, ltb, leb, ◌==◌, if◌then◌else◌,
}
use here_data_sdk_cpp.Common.Bits.{u64}
use here_data_sdk_cpp.Cache.ProtectedKeyList.{Key, string_less}
use here_data_sdk_cpp.Cache.InMemoryCache.{has_prefix}

abbrev pub Bytes : Type 0
Bytes = List ℕ

abbrev pub Entries : Type 0
Entries = List (Key × Bytes)

-- A record of a `leveldb::WriteBatch`.
pub data BatchOp : Type 0 where
  batch_put : Key → Bytes → BatchOp
  batch_delete : Key → BatchOp

-- The database and its statuses, the size that its environment counts, if it limits the size, and
-- `GetApproximateSizes` of the keys from "0" to "z".
pub record LevelDb (D S : Type 0) : Type 0 where
  pub entries : D → Entries
  pub write : D → List BatchOp → D × S
  pub delete : D → Key → D × S
  pub put : D → Key → Bytes → D × S
  pub compact_range : D → D
  pub files_at_level0 : D → ℕ
  pub environment_size : D → Option ℕ
  pub approximate_size : D → ℕ
  pub ok : S → Bool
  pub is_not_found : S → Bool
  pub is_invalid_argument : S → Bool
  pub is_corruption : S → Bool
  pub is_io_error : S → Bool
  pub is_not_supported_error : S → Bool

-- The codes of `client::ErrorCode` that the caches return.
pub data ErrorCode : Type 0 where
  unknown : ErrorCode
  invalid_argument : ErrorCode
  bad_request : ErrorCode
  precondition_failed : ErrorCode
  not_found : ErrorCode
  cache_io : ErrorCode

-- `OperationOutcome`, with the code of the error.
pub data Outcome (A : Type 0) : Type 0 where
  success : A → Outcome A
  failure : ErrorCode → Outcome A

unfoldable pub is_successful : {A : Type 0} → Outcome A → Bool
is_successful (success a) = true
is_successful (failure e) = false

pub record DiskCache (D : Type 0) : Type 0 where
  pub database : Option D
  pub max_size : ℕ
  pub compacting : Bool

-- `kSizeMax`, and `kMaxL0Files`.
abbrev pub size_max : ℕ
size_max = 2 ^ 64 - 1

abbrev pub max_l0_files : ℕ
max_l0_files = 4

-- `Seek`: the entries from the first whose key is not less.
unfoldable pub seek : Key → Entries → Entries
seek key [] = []
seek key ((k, v) ∷ l) = if string_less k key then seek key l else (k, v) ∷ l

-- The entries that the loop of `RemoveKeysWithPrefix` meets: until one does not start so.
unfoldable pub run_of : Key → Entries → Entries
run_of prefix [] = []
run_of prefix ((k, v) ∷ l) = if has_prefix k prefix then (k, v) ∷ run_of prefix l else []

-- The batch of the loop, and the size of what it deletes.
unfoldable pub delete_batch : (Key → Bool) → Entries → List BatchOp
delete_batch filter [] = []
delete_batch filter ((k, v) ∷ l) =
    if filter k then delete_batch filter l else BatchOp.batch_delete k ∷ delete_batch filter l

-- The sum of the sizes, a `uint64_t`.
unfoldable pub deleted_size : (Key → Bool) → Entries → ℕ
deleted_size filter [] = 0
deleted_size filter ((k, v) ∷ l) =
    if filter k then deleted_size filter l else u64 (length v + length k + deleted_size filter l)

module _ (dec : Discrete Key) where
  abbrev pub same_key : Key → Key → Bool
  same_key k key = ite (dec key k) true false

  -- `Valid() && key() == key` of an iterator, its value, and what `Get` makes of it.
  unfoldable pub at_key : Key → Entries → Option Bytes
  at_key key [] = none
  at_key key ((k, v) ∷ l) = if same_key k key then some v else none

unfoldable pub non_empty : Option Bytes → Outcome Bytes
non_empty none = Outcome.failure ErrorCode.not_found
non_empty (some v) =
    if length v == 0 then Outcome.failure ErrorCode.not_found else Outcome.success v

module _ {D S : Type 0} (db : LevelDb D S) where
  -- `GetApiError`: a later test overwrites the code of an earlier one.
  unfoldable pub get_api_error : S → ErrorCode
  get_api_error status =
      if db.is_not_supported_error status
      then ErrorCode.bad_request
      else if db.is_corruption status
      then ErrorCode.cache_io
      else if db.is_io_error status
      then ErrorCode.cache_io
      else if db.is_invalid_argument status
      then ErrorCode.invalid_argument
      else if db.is_not_found status
      then ErrorCode.not_found
      else ErrorCode.unknown

  unfoldable pub outcome_of : S → Outcome Unit
  outcome_of status =
      if db.ok status then Outcome.success tt else Outcome.failure (get_api_error status)

  unfoldable pub check_compaction_finished : D → Bool
  check_compaction_finished d = ltb (db.files_at_level0 d) max_l0_files

  -- The loop of `Compact`, with the attempts that are left after the current one.
  unfoldable pub compact_attempts : ℕ → D → D
  compact_attempts zero d = db.compact_range d
  compact_attempts (suc attempts) d =
      let rest = compact_attempts attempts (db.compact_range d) in
      if check_compaction_finished (db.compact_range d) then db.compact_range d else rest

  unfoldable pub compact : DiskCache D → DiskCache D
  compact c = elim c.database [
    | none ↦ c
    | some d ↦ if c.compacting then c else record c { database = some (compact_attempts 2 d) }
  ]

  -- Whether `ApplyBatch` wants the database compacted: `max_size_`, and `environment_->Size()`.
  unfoldable pub over_limit : DiskCache D → D → Bool
  over_limit c d =
      not (c.max_size == size_max)
      && elim (db.environment_size d) [ none ↦ false | some size ↦ leb c.max_size size ]

  -- The body of the thread that `ApplyBatch` starts when it sets `compacting_`.
  unfoldable pub compaction_thread : DiskCache D → DiskCache D
  compaction_thread c = elim c.database [
    | none ↦ c
    | some d ↦ record c { database = some (db.compact_range d); compacting = false }
  ]

  -- `Close`: it waits for the thread that compacts the database, if there is one.
  unfoldable pub close_disk : DiskCache D → DiskCache D
  close_disk c = record (if c.compacting then compaction_thread c else c) { database = none }

  -- `Clear`, with what `Dir::Remove` returns for the path, if that is not empty.
  unfoldable pub clear_disk : DiskCache D → Option Bool → DiskCache D × Bool
  clear_disk c removed = (close_disk c, elim removed [ none ↦ true | some done ↦ done ])

  unfoldable pub apply_batch : DiskCache D → List BatchOp → DiskCache D × Outcome Unit
  apply_batch c batch = elim c.database [
    | none ↦ (c, Outcome.failure ErrorCode.precondition_failed)
    | some d ↦
        let done = db.write d batch in
        (
          record c {
            database = some done.0;
            compacting = if over_limit c d then true else c.compacting;
          },
          outcome_of done.1,
        )
  ]

  -- `Put`, which writes one entry.
  unfoldable pub put_value : DiskCache D → Key → Bytes → DiskCache D × Bool
  put_value c key value = elim c.database [
    | none ↦ (c, false)
    | some d ↦ let done = db.put d key value in (record c { database = some done.0 }, db.ok done.1)
  ]

  unfoldable pub remove_keys_with_prefix :
      DiskCache D → Key → (Key → Bool) → DiskCache D × (Outcome Unit × ℕ)
  remove_keys_with_prefix c prefix filter = elim c.database [
    | none ↦ (c, (Outcome.failure ErrorCode.precondition_failed, 0))
    | some d ↦
        let first = if length prefix == 0 then db.entries d else seek prefix (db.entries d) in
        let met = if length prefix == 0 then first else run_of prefix first in
        let done = apply_batch c (delete_batch filter met) in
        (done.0, (done.1, if is_successful done.1 then deleted_size filter met else 0))
  ]

  -- `Size`.
  unfoldable pub disk_size : DiskCache D → ℕ
  disk_size c = elim c.database [ none ↦ 0 | some d ↦ db.approximate_size d ]

module _ {D S : Type 0} (db : LevelDb D S) (dec : Discrete Key) where
  unfoldable pub get : DiskCache D → Key → Outcome Bytes
  get c key = elim c.database [
    | none ↦ Outcome.failure ErrorCode.precondition_failed
    | some d ↦ non_empty (at_key dec key (seek key (db.entries d)))
  ]

  unfoldable pub contains : DiskCache D → Key → Bool
  contains c key = elim c.database [
    | none ↦ false
    | some d ↦ elim (at_key dec key (seek key (db.entries d))) [ none ↦ false | some v ↦ true ]
  ]

  -- The size that `Remove` counts for the key.
  unfoldable pub size_at : D → Key → ℕ
  size_at d key = elim (at_key dec key (seek key (db.entries d))) [
    | none ↦ 0
    | some v ↦ length key + length v
  ]

  unfoldable pub remove : DiskCache D → Key → DiskCache D × (Outcome Unit × ℕ)
  remove c key = elim c.database [
    | none ↦ (c, (Outcome.failure ErrorCode.precondition_failed, 0))
    | some d ↦
        let done = db.delete d key in
        (
          record c { database = some done.0 },
          (outcome_of db done.1, if db.ok done.1 then size_at d key else 0),
        )
  ]
