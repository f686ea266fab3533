-- ===== src/Cache/ProtectedKeyList.antt =====
-- `ProtectedKeyList` of olp-cpp-sdk-core/src/cache/ProtectedKeyList.cpp and .h. A key is a list of
-- bytes, and the `std::set` the list of its elements in their order: an iterator is a place in that
-- list, written as the elements before it and from it.
pub mod Order
pub mod Protected
pub mod Change
pub mod Release
pub mod Serial
use here_data_sdk_cpp.Common.{
  ℕ, zero, suc, ◌+◌, ◌^◌, Bool, true, false, ◌&&◌, List, [], ◌∷◌, ◌++◌, Option, none, some, ltb,
  leb, ◌==◌, length, if◌then◌else◌, ◌>>=◌,
}
use here_data_sdk_cpp.Common.Bits.{u32}

abbrev pub Key : Type 0
Key = List ℕ

-- `std::equal(prefix.begin(), prefix.end(), key.begin())` where `key` is no shorter.
unfoldable pub starts_with : Key → Key → Bool
starts_with [] k = true
starts_with (x ∷ p) [] = false
starts_with (x ∷ p) (y ∷ k) = if x == y then starts_with p k else false

unfoldable pub is_prefix : Key → Key → Bool
is_prefix prefix key = if ltb (length prefix) (length key) then starts_with prefix key else false

unfoldable pub is_equal_or_prefix : Key → Key → Bool
is_equal_or_prefix prefix key =
    if leb (length prefix) (length key) then starts_with prefix key else false

-- `lhs < rhs` of `std::string`.
unfoldable pub string_less : Key → Key → Bool
string_less [] [] = false
string_less [] (y ∷ r) = true
string_less (x ∷ l) [] = false
string_less (x ∷ l) (y ∷ r) = if ltb x y then true else if x == y then string_less l r else false

-- `CustomCompare`.
unfoldable pub custom_compare : Key → Key → Bool
custom_compare lhs rhs =
    if ltb (length rhs) (length lhs)
    then if starts_with rhs lhs then false else string_less lhs rhs
    else if ltb (length lhs) (length rhs)
    then if starts_with lhs rhs then false else string_less lhs rhs
    else string_less lhs rhs

pub record ProtectedKeyList : Type 0 where
  pub protected_data : List Key
  pub size_written : ℕ
  pub dirty : Bool

abbrev pub no_keys : ProtectedKeyList
no_keys = record { protected_data = []; size_written = 0; dirty = false }

-- `lower_bound(key)`: the elements before the iterator, and from it.
unfoldable pub before_bound : List Key → Key → List Key
before_bound [] key = []
before_bound (e ∷ l) key = if custom_compare e key then e ∷ before_bound l key else []

unfoldable pub from_bound : List Key → Key → List Key
from_bound [] key = []
from_bound (e ∷ l) key = if custom_compare e key then from_bound l key else e ∷ l

-- The loops that erase at the iterator while a test holds.
unfoldable pub erase_while : (Key → Bool) → List Key → List Key
erase_while f [] = []
erase_while f (e ∷ l) = if f e then erase_while f l else e ∷ l

-- `insert(hint, key)` at its place: an equal element stays, and the test is `res != hint`.
unfoldable pub insert_here : Key → List Key → List Key × Bool
insert_here key [] = (key ∷ [], true)
insert_here key (e ∷ l) = if custom_compare key e then (key ∷ e ∷ l, true) else (e ∷ l, false)

-- Whether `IsPrefix(*hint, key)`, where `hint` is no `end()`.
unfoldable pub covered : List Key → Key → Bool
covered [] key = false
covered (e ∷ l) key = is_prefix e key

-- One round of `Protect`: the elements, and whether the key has become protected.
unfoldable pub protect_key : List Key → Key → List Key × Bool
protect_key l key =
    if covered (from_bound l key) key
    then (l, false)
    else let result = insert_here key (erase_while (is_prefix key) (from_bound l key)) in
      (before_bound l key ++ result.0, result.1)

-- The rounds of `Protect`: the elements, and the keys that the callback is called with.
unfoldable pub protect_loop : List Key → List Key → List Key × List Key
protect_loop l [] = (l, [])
protect_loop l (key ∷ keys) =
    let round = protect_key l key in
    let rest = protect_loop round.0 keys in (rest.0, if round.1 then key ∷ rest.1 else rest.1)

unfoldable pub is_empty : List Key → Bool
is_empty [] = true
is_empty (k ∷ l) = false

-- `Protect`: the state, the calls of `change_key_to_protected`, and `was_updated`.
unfoldable pub protect : ProtectedKeyList → List Key → ProtectedKeyList × (List Key × Bool)
protect s keys =
    let done = protect_loop s.protected_data keys in
    let was_updated = if is_empty done.1 then false else true in
    (
      record s { protected_data = done.0; dirty = if was_updated then true else s.dirty },
      (done.1, was_updated),
    )

-- `Release`: the loop over the keys with its result so far, and whether the list is dirty.
unfoldable pub release_loop : List Key → Bool → Bool → List Key → List Key × (Bool × Bool)
release_loop l dirty result [] = (l, (dirty, result))
release_loop l dirty result (key ∷ keys) =
    let kept = erase_while (is_equal_or_prefix key) (from_bound l key) in
    let erased = ltb (length kept) (length (from_bound l key)) in
    let rest =
      release_loop (before_bound l key ++ kept) (if erased then true else dirty)
        (if erased then true else result) keys in
    if covered (from_bound l key) key then (l, (dirty, false)) else rest

unfoldable pub release : ProtectedKeyList → List Key → ProtectedKeyList × Bool
release s keys =
    let done = release_loop s.protected_data s.dirty false keys in
    (record s { protected_data = done.0; dirty = done.1.0 }, done.1.1)

unfoldable pub is_protected_at : List Key → Key → Bool
is_protected_at [] key = false
is_protected_at (e ∷ l) key =
    if ltb (length key) (length e) then false else if is_equal_or_prefix e key then true else false

unfoldable pub is_protected : ProtectedKeyList → Key → Bool
is_protected s key =
    if is_empty s.protected_data
    then false
    else is_protected_at (from_bound s.protected_data key) key

-- `key.back() != '\0'`, which an empty key does not have.
unfoldable pub last_byte : Key → Option ℕ
last_byte [] = none
last_byte (x ∷ []) = some x
last_byte (x ∷ y ∷ k) = last_byte (y ∷ k)

unfoldable pub serialize_keys : List Key → Option (List ℕ)
serialize_keys [] = some []
serialize_keys (k ∷ l) = do
  rest ← serialize_keys l
  last ← last_byte k
  some (k ++ (if last == 0 then rest else 0 ∷ rest))

-- The loop of `Serialize` that sums the sizes into an `int`, on the pattern of its 32 bits.
unfoldable pub add_sizes : ℕ → List Key → ℕ
add_sizes size [] = size
add_sizes size (k ∷ l) = add_sizes (u32 (size + length k + 1)) l

-- `size > 0` of an `int`.
unfoldable pub is_size : ℕ → Bool
is_size size = ltb 0 size && ltb size (2 ^ 31)

-- `Serialize`; `none` is the undefined `back()` of an empty key.
unfoldable pub serialize : ProtectedKeyList → Option (ProtectedKeyList × List ℕ)
serialize s = do
  value ←
      if is_size (add_sizes 0 s.protected_data) then serialize_keys s.protected_data else some []
  some (record s { dirty = false; size_written = length value }, value)

-- `protected_data_.insert(str)`.
unfoldable pub insert_key : List Key → Key → List Key
insert_key l key = before_bound l key ++ (insert_here key (from_bound l key)).0

-- `std::getline(stream, str, '\0')`: the first line and what follows its end, if the stream has it.
unfoldable pub line : List ℕ → Key
line [] = []
line (x ∷ s) = if x == 0 then [] else x ∷ line s

unfoldable pub after_line : List ℕ → List ℕ
after_line [] = []
after_line (x ∷ s) = if x == 0 then s else after_line s

-- The loop of `Deserialize`, on fuel; each round takes a byte at least.
unfoldable pub deserialize_loop : ℕ → List Key → List ℕ → List Key
deserialize_loop fuel l [] = l
deserialize_loop zero l (x ∷ s) = l
deserialize_loop (suc fuel) l (x ∷ s) =
    deserialize_loop fuel (insert_key l (line (x ∷ s))) (after_line (x ∷ s))

unfoldable pub deserialize : ProtectedKeyList → Option (List ℕ) → ProtectedKeyList × Bool
deserialize s none = (s, false)
deserialize s (some value) = (
  record {
    protected_data = deserialize_loop (length value) s.protected_data value;
    dirty = false;
    size_written = length value;
  },
  true,
)
