-- ===== src/Read/NamedMutex.antt =====
-- `NamedMutexStorage` of olp-cpp-sdk-dataservice-read/src/repositories/NamedMutex.cpp: the mutexes
-- by name, each with the number of its users and the last error. The mutex and the condition
-- variable of an entry are the entry itself here.
pub mod Uses
pub mod Tests
use mathlib.Core.Logic.{ite}
use here_data_sdk_cpp.Common.{ℕ, ◌+◌, ◌-◌, ◌^◌, Option, none, some, ◌==◌, if◌then◌else◌}
use here_data_sdk_cpp.Common.Bits.{u32}

-- `E` is `ApiError`.
pub record RefCounterMutex (E : Type 0) : Type 0 where
  pub use_count : ℕ
  pub optional_error : Option E

-- `N` is the type of the names.
abbrev pub Mutexes : Type 0 → Type 0 → Type 0
Mutexes N E = N → Option (RefCounterMutex E)

module _ {N E : Type 0} (dec : Discrete N) where
  unfoldable pub assign : Mutexes N E → N → Option (RefCounterMutex E) → Mutexes N E
  assign s resource m q = ite (dec resource q) m (s q)

  -- `mutexes_[resource]`, which makes an entry where there is none.
  unfoldable pub entry : Mutexes N E → N → RefCounterMutex E
  entry s resource = elim (s resource) [
    | none ↦ record { use_count = 0; optional_error = none }
    | some m ↦ m
  ]

  unfoldable pub acquire_lock : Mutexes N E → N → Mutexes N E
  acquire_lock s resource =
      let m = entry s resource in
      assign s resource (some (record m { use_count = u32 (m.use_count + 1) }))

  unfoldable pub release_lock : Mutexes N E → N → Mutexes N E
  release_lock s resource = elim (s resource) [
    | none ↦ s
    | some m ↦
        let left = u32 (m.use_count + 2 ^ 32 - 1) in
        assign s resource (if left == 0 then none else some (record m { use_count = left }))
  ]

  -- `GetLockCondition` and `GetLockMutex` make an entry too.
  unfoldable pub get_lock_condition : Mutexes N E → N → Mutexes N E
  get_lock_condition s resource = assign s resource (some (entry s resource))

  unfoldable pub set_error : Mutexes N E → N → E → Mutexes N E
  set_error s resource error = elim (s resource) [
    | none ↦ s
    | some m ↦ assign s resource (some (record m { optional_error = some error }))
  ]

  unfoldable pub get_error : Mutexes N E → N → Option E
  get_error s resource = elim (s resource) [ none ↦ none | some m ↦ m.optional_error ]

  -- The constructor of `NamedMutex`, and its destructor.
  unfoldable pub open_mutex : Mutexes N E → N → Mutexes N E
  open_mutex s name = get_lock_condition (get_lock_condition (acquire_lock s name) name) name

  unfoldable pub close_mutex : Mutexes N E → N → Mutexes N E
  close_mutex s name = release_lock s name
