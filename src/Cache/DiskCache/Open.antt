-- ===== src/Cache/DiskCache/Open.antt =====
-- `Open` of DiskCache.cpp. What the directory functions and LevelDB return in the attempts to open
-- the database are arguments.
use here_data_sdk_cpp.Common.{
  ℕ, ◌≡◌, arith, Bool, true, false, not, ◌&&◌, ◌||◌, Option, none, some, if◌then◌else◌,
}
use here_data_sdk_cpp.Cache.DiskCache.{LevelDb, DiskCache, check_compaction_finished}

pub data OpenResult : Type 0 where
  fail : OpenResult
  corrupted : OpenResult
  io_error : OpenResult
  repaired : OpenResult
  opened : OpenResult
  postponed : OpenResult

-- The results of the calls: whether the directory is there or made, and holds another directory;
-- the statuses and databases of `DB::Open` at first, after `InitializeDB` and after `RepairCache`.
pub record Attempts (D S : Type 0) : Type 0 where
  pub directory : Bool
  pub unexpected_dirs : Bool
  pub first : S × D
  pub initialized : S
  pub second : S × D
  pub repair : Bool
  pub third : S × D

-- Whether the result is that of an open database.
unfoldable pub has_opened : OpenResult → Bool
has_opened OpenResult.fail = false
has_opened OpenResult.corrupted = false
has_opened OpenResult.io_error = false
has_opened OpenResult.repaired = true
has_opened OpenResult.opened = true
has_opened OpenResult.postponed = false

unfoldable pub is_some : {D : Type 0} → Option D → Bool
is_some none = false
is_some (some d) = true

module _ {D S : Type 0} (db : LevelDb D S) where
  -- The end of `Open`, with the last status and its database.
  unfoldable pub finish_open : DiskCache D → Bool → S × D → DiskCache D × OpenResult
  finish_open c is_read_only (status, d) =
      if not (db.ok status)
      then (c, OpenResult.fail)
      else if is_read_only && not (check_compaction_finished db d)
      then (c, OpenResult.corrupted)
      else (record c { database = some d }, OpenResult.opened)

  unfoldable pub repair_open : DiskCache D → Bool → Attempts D S → S × D → DiskCache D × OpenResult
  repair_open c is_read_only a last =
      if not a.repair
      then finish_open c is_read_only last
      else if db.ok a.third.0
      then (record c { database = some a.third.1 }, OpenResult.repaired)
      else finish_open c is_read_only a.third

  -- `Open` with the status of the last attempt before a repair.
  unfoldable pub open_status :
      DiskCache D → Bool → Bool → Attempts D S → S × D → DiskCache D × OpenResult
  open_status c is_read_only repair_if_broken a last =
      if db.is_corruption last.0 || db.is_io_error last.0
      then if is_read_only || not repair_if_broken
        then (c, if db.is_io_error last.0 then OpenResult.io_error else OpenResult.corrupted)
        else repair_open c is_read_only a last
      else finish_open c is_read_only last

  unfoldable pub open_disk_cache :
      DiskCache D → ℕ → Bool → Bool → Attempts D S → DiskCache D × OpenResult
  open_disk_cache c max_disk_storage is_read_only repair_if_broken a =
      let c1 : DiskCache D = record c { max_size = max_disk_storage } in
      if not a.directory
      then (c, OpenResult.fail)
      else if a.unexpected_dirs
      then (c, OpenResult.fail)
      else if db.is_invalid_argument a.first.0 && is_read_only
      then if not repair_if_broken
        then (c1, OpenResult.postponed)
        else if not (db.ok a.initialized)
        then (c1, OpenResult.fail)
        else open_status c1 is_read_only repair_if_broken a a.second
      else open_status c1 is_read_only repair_if_broken a a.first

  finish_open-is_some :
      (c : DiskCache D) (is_read_only : Bool) (last : S × D)
      → c.database ≡ none
      → is_some (finish_open c is_read_only last).0.database
        ≡ has_opened (finish_open c is_read_only last).1
  unfolding finish_open has_opened is_some
  finish_open-is_some c is_read_only last closed = ground arith

  open_status-is_some :
      (c : DiskCache D) (is_read_only repair_if_broken : Bool) (a : Attempts D S) (last : S × D)
      → c.database ≡ none
      → is_some (open_status c is_read_only repair_if_broken a last).0.database
        ≡ has_opened (open_status c is_read_only repair_if_broken a last).1
  unfolding open_status repair_open has_opened is_some
  open_status-is_some c is_read_only repair_if_broken a last closed = ground (
    arith,
    finish_open-is_some c is_read_only last closed,
    finish_open-is_some c is_read_only a.third closed,
  )

  -- `Open` of a disk cache that has no database leaves one exactly when it returns that it has
  -- opened or repaired it, whatever the attempts return.
  pub open_disk_cache-is_some :
      (c : DiskCache D) (max_disk_storage : ℕ) (is_read_only repair_if_broken : Bool)
      (a : Attempts D S)
      → c.database ≡ none
      → is_some (open_disk_cache c max_disk_storage is_read_only repair_if_broken a).0.database
        ≡ has_opened (open_disk_cache c max_disk_storage is_read_only repair_if_broken a).1
  unfolding open_disk_cache has_opened is_some
  open_disk_cache-is_some c max_disk_storage is_read_only repair_if_broken a closed =
      let c1 : DiskCache D = record c { max_size = max_disk_storage } in
      ground (
        arith,
        open_status-is_some c1 is_read_only repair_if_broken a a.first closed,
        open_status-is_some c1 is_read_only repair_if_broken a a.second closed,
      )
