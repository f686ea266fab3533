-- ===== src/Read/NamedMutex/Tests.antt =====
-- Concrete users of named mutexes.
use here_data_sdk_cpp.Common.{ℕ, ◌≡◌, refl, true, none, some}
use here_data_sdk_cpp.Read.NamedMutex.{Mutexes}
use here_data_sdk_cpp.Read.NamedMutex.Uses.{counted}

-- Two users hold every name.
abbrev held : Mutexes ℕ ℕ
held = λ name. some (record { use_count = 2; optional_error = none })

held-counted : counted (held 7) ≡ true
unfolding counted
held-counted = refl
