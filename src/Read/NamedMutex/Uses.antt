-- ===== src/Read/NamedMutex/Uses.antt =====
-- The users of a named mutex, and how long its error is kept.
use here_data_sdk_cpp.Common.{
  ◌-◌, ◌^◌, ◌≡◌, arith, true, false, Bool, Option, none, some, ◌==◌, ltb, if◌then◌else◌,
}
use here_data_sdk_cpp.Read.NamedMutex.{
  RefCounterMutex, Mutexes, assign, entry, acquire_lock, release_lock, get_lock_condition,
  set_error, get_error, open_mutex, close_mutex,
}

-- An entry has a user, and the counter has room for another.
unfoldable pub counted : {E : Type 0} → Option (RefCounterMutex E) → Bool
counted none = true
counted (some m) = if m.use_count == 0 then false else ltb m.use_count (2 ^ 32 - 1)

module _ {N E : Type 0} (dec : Discrete N) where
  -- A named mutex that is made and destroyed leaves the storage as it was, where an entry has
  -- between one user and 2^32 - 2.
  pub close_mutex-open_mutex :
      (s : Mutexes N E) (name q : N)
      → counted (s name) ≡ true
      → close_mutex dec (open_mutex dec s name) name q ≡ s q
  unfolding close_mutex open_mutex acquire_lock release_lock get_lock_condition entry assign counted
  close_mutex-open_mutex s name q h = ground arith

  -- Where an entry has between one user and 2^32 - 2, an error that a new user of the name sets is
  -- read under the name; and when the name had no user before, it is gone after this one has left.
  get_error-set_error :
      (s : Mutexes N E) (name : N) (error : E)
      → counted (s name) ≡ true
      → (get_error dec (set_error dec (open_mutex dec s name) name error) name ≡ some error)
        × (s name ≡ none
            → get_error dec
                (close_mutex dec (set_error dec (open_mutex dec s name) name error) name)
                name
              ≡ none)
  unfolding close_mutex open_mutex acquire_lock release_lock get_lock_condition entry assign counted
      set_error get_error
  get_error-set_error s name error h = (ground arith, λ e. ground arith)
