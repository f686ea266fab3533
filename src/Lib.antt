-- ===== src/Lib.antt =====
-- A verification library of the HERE Data SDK for C++.
--
-- The SDK reads and writes the data of the HERE platform. Its core library
-- (olp-cpp-sdk-core) has the tile keys that name the cells of a map, the caches of what has been
-- read, and the client that sends requests to the platform and shares the requests that several
-- callers make for one url. The libraries for reading and writing (olp-cpp-sdk-dataservice-read and
-- olp-cpp-sdk-dataservice-write) use all three, and the authentication library
-- (olp-cpp-sdk-authentication) gives the client its tokens. This library models parts of
-- the core, and of reading.
--
-- Geo: olp-cpp-sdk-core/include/olp/core/geo/tiling/TileKey.h and
-- olp-cpp-sdk-core/src/geo/tiling/TileKey.cpp.
--   Geo/TileKey is the record of row, column and level with its comparisons, neighbours and family
--   (`IsValid`, `Parent`, `IsChildOf`, `GetChild`, `ChangedLevelBy`, `NextRow` and the others).
--   Geo/QuadKey has the encodings: `ToQuadKey64` with its Morton table, `FromQuadKey64`, `ToQuadKey`,
--   `FromQuadKey`, `ToHereTile`, `FromHereTile`, the subkeys and `QuadKey64Helper`.
--   Geo/Levels has the sets of levels as bit masks: `GetMinTileKeyLevel`, `GetMaxTileKeyLevel` and
--   `GetNearestAvailableTileKeyLevel`.
-- Cache: olp-cpp-sdk-core/src/cache and olp-cpp-sdk-core/include/olp/core/utils.
--   Cache/ProtectedKeyList is `ProtectedKeyList` of olp-cpp-sdk-core/src/cache/ProtectedKeyList.cpp: the
--   set of keys and prefixes that the cache must not evict. The set is the list of its elements in the
--   order of `CustomCompare`, which Cache/ProtectedKeyList/Order describes: `protect` is `Protect`,
--   `release` is `Release`, `serialize` and `deserialize` are the two of their names.
--   Cache/KeyGenerator is `KeyGenerator` of olp-cpp-sdk-core/src/cache/KeyGenerator.cpp, the keys of what
--   is cached, which use the texts of Geo/QuadKey.
--   Cache/Lru has the operations of `LruCache` of
--   olp-cpp-sdk-core/include/olp/core/utils/LruCache.h on the buckets that are linked in the order of use;
--   Cache/Lru/Model has the same operations on a list, which Cache/Lru/Refine compares them with.
--   Cache/InMemoryCache is `InMemoryCache` of olp-cpp-sdk-core/src/cache/InMemoryCache.cpp over that LRU
--   cache, with its table of expiry times: `put`, `get`, `remove`, `remove_keys_with_prefix`, `contains`,
--   and `purge_expired` for `PurgeExpired`. A call of the eviction callback is an entry of the log of
--   the LRU cache, which `settle` hands to `on_eviction`.
--   Cache/DiskCache is `DiskCache` of olp-cpp-sdk-core/src/cache/DiskCache.cpp. LevelDB is a parameter:
--   `LevelDb` has the entries that an iterator reads and the calls that change them, and `Answers` says
--   what LevelDB documents of them: the order of the keys, and that a write makes all changes of its
--   batch or none. `get`, `remove`, `apply_batch`, `remove_keys_with_prefix`, `compact`,
--   `put_value`, `close_disk`, `clear_disk` and, in Cache/DiskCache/Open, `open_disk_cache` are
--   the methods; the thread that `ApplyBatch` starts is `compaction_thread`.
--   Cache/DiskCache/Instance is a database that answers so.
--   Cache/DefaultCache is `DefaultCacheImpl` of olp-cpp-sdk-core/src/cache/DefaultCacheImpl.cpp: the memory
--   cache in front of a protected and a mutable disk cache, with an LRU cache of the keys of the mutable
--   one. Cache/DefaultCache has the state and its LRU cache, Disk has `GetFromDiskCache` and `PurgeDiskItem`,
--   Calls has `Read`, `Contains`, `Delete`, `DeleteByPrefix`, `Protect` and `Release`, Put has `Write` with
--   `PutMutableCache`, Evict has `MaybeEvictData`, Storage has how the caches are opened and closed, and
--   Lifecycle has `Open` and `Close` of one of them, `Clear` and `Compact`.
--   Parts states what the memory cache and the LRU cache hold as lists of elements, over Cache/InMemoryCache
--   and Cache/Lru. The thresholds of the eviction, which the source has in floating point, and the
--   readings of the clock, one for each portion of expired elements, are parameters.
-- Client: olp-cpp-sdk-core/src/client.
--   Client/PendingUrlRequest is the request with its callbacks and its `CancellationContext`:
--   `append`, `cancel_callback`, `execute_or_cancelled` and `complete` are `Append`, `Cancel`,
--   `ExecuteOrCancelled` and `OnRequestCompleted` of `PendingUrlRequest`.
--   Client/PendingUrlRequests is the table of the requests by url, with a store for the shared pointers:
--   `append_url`, `cancel_url`, `cancel_all` and `on_request_completed`.
--   Client/Retry has the retries of the blocking `CallApi` of olp-cpp-sdk-core/src/client/OlpClient.cpp, with the
--   network and the cancellation as parameters: `retry_loop` is the loop, `sleep_loop` the sleep in it.
--   Client/TaskContext is `TaskContextImpl` of olp-cpp-sdk-core/include/olp/core/client/TaskContext.h: the
--   accesses that threads make to a task are events, which `run_task` takes in any order; `start_execute`
--   and `proceed_execute` are `Execute`, and `enter_cancel`, `cancel_context`, `reset_function` and `end_wait`
--   are `BlockingCancel`, with `Wait` of olp-cpp-sdk-core/include/olp/core/client/Condition.h.
--   Client/Backdown has the waiting times between retries of
--   olp-cpp-sdk-core/include/olp/core/client/BackdownStrategy.h; the random draw is a parameter.
--   Client/Hrn is `HRN` of olp-cpp-sdk-core/src/client/HRN.cpp with `Tokenizer` of
--   olp-cpp-sdk-core/src/client/Tokenizer.h: `parse` is the constructor from a text, `to_string` is
--   `ToString`, `equals` is `operator==`.
-- Read: olp-cpp-sdk-dataservice-read/src.
--   Read/NamedMutex is the storage of named mutexes of
--   olp-cpp-sdk-dataservice-read/src/repositories/NamedMutex.cpp; locks and waits are left out.
-- Thread: olp-cpp-sdk-core/src/thread and olp-cpp-sdk-core/include/olp/core/thread.
--   Thread/PriorityQueue is `PriorityQueueExtended` of olp-cpp-sdk-core/src/thread/PriorityQueueExtended.h.
--   Thread/SyncQueue is `SyncQueue` of olp-cpp-sdk-core/include/olp/core/thread/SyncQueue.inl over it, with the
--   tasks of olp-cpp-sdk-core/src/thread/ThreadPoolTaskScheduler.cpp: `push_sync`, `pull` and `close`.
-- Utils: olp-cpp-sdk-core/src/utils.
--   Utils/Url is the percent encoding of olp-cpp-sdk-core/src/utils/Url.cpp: `encode`, `decode` and
--   `construct` are `Encode`, `Decode` and `Construct`.
-- Common has the names that all share: tests, lists, machine words, text of decimal numbers.
--
-- Numbers are natural numbers, and the wrap of a machine word is written out. A loop that is not a
-- recursion on a list takes fuel: 32 rounds for a quadkey, whose 64 bits lose two in each; 33 for the
-- levels; the number of bytes for `Deserialize`, which takes a byte in each round; the number of elements
-- for the eviction of the LRU cache and for `RemoveKeysWithPrefix`; the milliseconds to sleep for the
-- sleep between two attempts; the number of bytes for `Decode`, whose index of 32 bits reaches the end of a
-- text of less than 2 ^ 32 bytes; the number of elements of the LRU cache for a portion of evicted data, and
-- one more for the portions of a call, since each that is followed by another erases an element.
-- The loop of `AddedSubkey` is modelled with its fuel as an argument, since it does not always
-- end. An operation under a mutex is one step; the calls that it makes to callbacks, and the
-- tokens that it cancels, are values that it returns in their order.
--
-- Not modelled: LevelDB, the networks and the directory functions (parameters); the blocking wait of
-- `CancelAllAndWait`, the locks of the named mutexes and the threads of the scheduler, of which
-- the model has the order of the operations; the bodies of user callbacks, of the encoders and
-- decoders of values and of cancellation tokens; logging; floating point (coordinates and projections,
-- the thresholds of the eviction); JSON and the models that are generated from the descriptions of the
-- services. The clients for reading, writing and authentication combine the network, these
-- models and JSON with the modelled parts: of them only the named mutexes are here.
pub mod Common
pub mod Cache
pub mod Client
pub mod Geo
pub mod Read
pub mod Thread
pub mod Utils
