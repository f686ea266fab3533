-- ===== src/Cache/Keys.antt =====
-- The comparison of two keys of the caches, which are lists of bytes.
use native.Mathlib.Decide.{ℕ_discrete}
use here_data_sdk_cpp.Common.{refl, [], ◌∷◌}
use here_data_sdk_cpp.Cache.ProtectedKeyList.{Key}

unfoldable pub key_discrete : Discrete Key
unfolding ℕ_discrete
key_discrete [] [] = yes refl
key_discrete [] (y ∷ l) = no (λ e. cc)
key_discrete (x ∷ k) [] = no (λ e. cc)
key_discrete (x ∷ k) (y ∷ l) = elim (ℕ_discrete x y) [
  | yes same ↦ elim (key_discrete k l) [ yes rest ↦ yes cc | no other ↦ no (λ e. other cc) ]
  | no other ↦ no (λ e. other cc)
]
