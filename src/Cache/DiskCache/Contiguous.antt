-- ===== src/Cache/DiskCache/Contiguous.antt =====
-- The keys with a prefix stand together in the order of the keys, so that the loop of
-- `RemoveKeysWithPrefix` from `Seek` to the first other key meets them all.
use here_data_sdk_cpp.Common.{◌≡◌, refl, arith, true, false, [], ◌∷◌, if◌then◌else◌}
use here_data_sdk_cpp.Cache.ProtectedKeyList.{Key, string_less, starts_with}
use here_data_sdk_cpp.Cache.ProtectedKeyList.Order.{length-starts_with}
use here_data_sdk_cpp.Cache.InMemoryCache.{has_prefix}
use here_data_sdk_cpp.Cache.DiskCache.{Entries, seek, run_of}
use here_data_sdk_cpp.Cache.DiskCache.Entries.{Above, Sorted, string_less_trans}

pub has_prefix-starts_with : (p k : Key) → has_prefix k p ≡ starts_with p k
unfolding has_prefix
has_prefix-starts_with p k = ground (arith, length-starts_with p k)

-- A key below the prefix has it not, and no key above a key that is above the prefix and has it
-- not.
string_less-starts_with : (k p : Key) → string_less k p ≡ true → starts_with p k ≡ false
unfolding string_less starts_with
string_less-starts_with [] [] h = cc
string_less-starts_with (y ∷ k) [] h = cc
string_less-starts_with [] (x ∷ p) h = refl
string_less-starts_with (y ∷ k) (x ∷ p) h = ground (arith, string_less-starts_with k p)

past :
    (p j k : Key)
    → string_less j p ≡ false
    → starts_with p j ≡ false
    → string_less j k ≡ true
    → (starts_with p k ≡ false) × (string_less k p ≡ false)
unfolding string_less starts_with
past [] j k h n l = ground arith
past (x ∷ p) [] k h n l = ground arith
past (x ∷ p) (y ∷ j) [] h n l = ground arith
past (x ∷ p) (y ∷ j) (z ∷ k) h n l = ground (arith, past p j k)

-- What the loop deletes of the entries from which it starts.
abbrev pub all_with : Key → Entries → Entries
all_with p [] = []
all_with p ((k, v) ∷ l) = if has_prefix k p then (k, v) ∷ all_with p l else all_with p l

all_with-past :
    (p j : Key) (l : Entries)
    → string_less j p ≡ false
    → starts_with p j ≡ false
    → Above j l
    → all_with p l ≡ []
all_with-past p j [] h n a = refl
all_with-past p j ((k, v) ∷ l) h n a =
    ground (arith, past p j k, has_prefix-starts_with p k, all_with-past p j l)

abbrev FromPrefix : Key → Entries → Type 0
FromPrefix p [] = Unit
FromPrefix p ((k, v) ∷ l) = string_less k p ≡ false

FromPrefix-Above : (p k : Key) (l : Entries) → string_less k p ≡ false → Above k l → FromPrefix p l
FromPrefix-Above p k [] h a = tt
FromPrefix-Above p k ((j, v) ∷ l) h a = ground (arith, string_less_trans k j p)

run_of-all_with : (p : Key) (l : Entries) → Sorted l → FromPrefix p l → run_of p l ≡ all_with p l
unfolding run_of
run_of-all_with p [] s h = refl
run_of-all_with p ((k, v) ∷ l) s h = ground (
  arith,
  has_prefix-starts_with p k,
  run_of-all_with p l,
  FromPrefix-Above p k l,
  all_with-past p k l,
)

pub run_of-seek : (p : Key) (l : Entries) → Sorted l → run_of p (seek p l) ≡ all_with p l
unfolding run_of seek
run_of-seek p [] s = refl
run_of-seek p ((k, v) ∷ l) s = ground (
  arith,
  run_of-seek p l,
  has_prefix-starts_with p k,
  string_less-starts_with k p,
  run_of-all_with p ((k, v) ∷ l),
)
