-- ===== src/Cache/ProtectedKeyList/Serial.antt =====
-- `Serialize` and `Deserialize`: the keys in their order, each ended by the byte 0.
use mathlib.Core.List.{append-nil}
use here_data_sdk_cpp.Common.{
  ℕ, zero, suc, ◌+◌, ◌^◌, ◌<◌, ◌≤◌, ◌∙◌, inl, inr, Bool-cases, ltb, ◌≡◌, refl, sym, ap, arith, Bool,
  true, false, List, [], ◌∷◌, ◌++◌, some, ◌==◌, length, length-append, if◌then◌else◌,
}
use here_data_sdk_cpp.Cache.ProtectedKeyList.{
  Key, ProtectedKeyList, before_bound, from_bound, insert_here, insert_key, no_keys, last_byte,
  serialize_keys, add_sizes, is_size, serialize, line, after_line, deserialize_loop, deserialize,
}
use here_data_sdk_cpp.Common.Bits.{u32}
use here_data_sdk_cpp.Cache.ProtectedKeyList.Order.{below, custom_compare_lem}
use here_data_sdk_cpp.Cache.ProtectedKeyList.Protected.{all_above, sorted, Sorted}

unfoldable pub no_zero : Key → Bool
no_zero [] = true
no_zero (x ∷ k) = if x == 0 then false else no_zero k

-- Every key has a byte, and none is 0.
unfoldable pub texts : List Key → Bool
texts [] = true
texts ([] ∷ l) = false
texts ((x ∷ k) ∷ l) = if no_zero (x ∷ k) then texts l else false

abbrev encoded : List Key → List ℕ
encoded [] = []
encoded (k ∷ l) = k ++ 0 ∷ encoded l

last_byte_lem :
    (x : ℕ) (k : Key)
    → no_zero (x ∷ k) ≡ true
    → (y : ℕ) × (last_byte (x ∷ k) ≡ some y) × ((y == 0) ≡ false)
unfolding no_zero last_byte
last_byte_lem x [] h = (x, refl, ground arith)
last_byte_lem x (y ∷ k) h = last_byte_lem y k (ground arith)

serialize_keys-encoded : (l : List Key) → texts l ≡ true → serialize_keys l ≡ some (encoded l)
unfolding serialize_keys texts
serialize_keys-encoded [] h = refl
serialize_keys-encoded ([] ∷ l) h = cc
serialize_keys-encoded ((x ∷ k) ∷ l) h =
    let (y, e, n) = last_byte_lem x k (ground arith) in
    rw (serialize_keys-encoded l (ground arith), e, n) refl

line-append : (k : Key) (s : List ℕ) → no_zero k ≡ true → line (k ++ 0 ∷ s) ≡ k
unfolding no_zero line
line-append [] s h = refl
line-append (x ∷ k) s h = ground (arith, line-append k s)

after_line-append : (k : Key) (s : List ℕ) → no_zero k ≡ true → after_line (k ++ 0 ∷ s) ≡ s
unfolding no_zero after_line
after_line-append [] s h = refl
after_line-append (x ∷ k) s h = ground (arith, after_line-append k s)

-- Every element of the first list is below the key.
abbrev all_below : List Key → Key → Bool
all_below [] k = true
all_below (e ∷ l) k = if below e k then all_below l k else false

insert_key_last : (l : List Key) (k : Key) → all_below l k ≡ true → insert_key l k ≡ l ++ k ∷ []
unfolding insert_key before_bound from_bound insert_here
insert_key_last [] k h = refl
insert_key_last (e ∷ l) k h = ground (arith, insert_key_last l k, custom_compare_lem e k)

all_above-append :
    (e : Key) (l : List Key) (k : Key) (m : List Key)
    → all_above e (l ++ k ∷ m) ≡ true
    → below e k ≡ true
unfolding all_above
all_above-append e [] k m a = ground arith
all_above-append e (f ∷ l) k m a = all_above-append e l k m (ground arith)

sorted-append :
    (l : List Key) (k : Key) (m : List Key) → sorted (l ++ k ∷ m) ≡ true → all_below l k ≡ true
unfolding sorted
sorted-append [] k m s = refl
sorted-append (e ∷ l) k m s = ground (arith, sorted-append l k m, all_above-append e l k m)

append_cons : (l : List Key) (k : Key) (m : List Key) → (l ++ k ∷ []) ++ m ≡ l ++ k ∷ m
append_cons [] k m = refl
append_cons (e ∷ l) k m = ap (λ t. e ∷ t) (append_cons l k m)

deserialize_loop-encoded :
    (fuel : ℕ) (acc l : List Key)
    → length (encoded l) ≤ fuel
    → texts l ≡ true
    → sorted (acc ++ l) ≡ true
    → deserialize_loop fuel acc (encoded l) ≡ acc ++ l
unfolding deserialize_loop texts
deserialize_loop-encoded fuel acc [] h t s = sym (append-nil acc)
deserialize_loop-encoded fuel acc ([] ∷ l) h t s = cc
deserialize_loop-encoded zero acc ((x ∷ k) ∷ l) h t s = absurd (omega arith)
deserialize_loop-encoded (suc fuel) acc ((x ∷ k) ∷ l) h t s = cc (
  line-append (x ∷ k) (encoded l) (ground arith),
  after_line-append (x ∷ k) (encoded l) (ground arith),
  insert_key_last acc (x ∷ k) (sorted-append acc (x ∷ k) l s),
  deserialize_loop-encoded fuel (acc ++ (x ∷ k) ∷ []) l
      (omega (arith, length-append k (0 ∷ encoded l))) (ground arith)
      (rw (append_cons acc (x ∷ k) l) s),
  append_cons acc (x ∷ k) l,
)

-- The bytes of the keys and of their ends.
abbrev pub total : List Key → ℕ
total [] = 0
total (k ∷ l) = length k + 1 + total l

add_sizes-total : (n : ℕ) (l : List Key) → n + total l < 2 ^ 31 → add_sizes n l ≡ n + total l
unfolding add_sizes
add_sizes-total n [] h = omega arith
add_sizes-total n (k ∷ l) h =
    let small : u32 (n + length k + 1) ≡ n + length k + 1 = omega (arith, h) in
    rw small (add_sizes-total (n + length k + 1) l (omega (arith, h)) ∙ omega arith)

total-encoded : (l : List Key) → total l ≡ 0 → encoded l ≡ []
total-encoded [] h = refl
total-encoded (k ∷ l) h = absurd (omega (arith, h))

serialize-encoded :
    (s : ProtectedKeyList)
    → texts s.protected_data ≡ true
    → total s.protected_data < 2 ^ 31
    → serialize s
      ≡ some (
        record s { dirty = false; size_written = length (encoded s.protected_data) },
        encoded s.protected_data,
      )
unfolding serialize is_size
serialize-encoded s t small =
    let sum = add_sizes-total 0 s.protected_data (omega (arith, small)) in
    let all = serialize_keys-encoded s.protected_data t in
    let nothing : total s.protected_data ≡ 0 → encoded s.protected_data ≡ [] =
      total-encoded s.protected_data in
    elim (Bool-cases (ltb 0 (total s.protected_data))) [
      | inl some_bytes ↦ ground (arith, sum, all)
      | inr no_bytes ↦ ground (arith, sum, nothing)
    ]

-- `Deserialize` of what `Serialize` writes gives the keys back, on a list in order whose keys are
-- not empty and hold no byte 0, and with their ends have less than 2 ^ 31 bytes; both record the
-- number of bytes as the size, and clear the dirty flag.
pub deserialize-serialize :
    (s : ProtectedKeyList)
    → Sorted s.protected_data
    → texts s.protected_data ≡ true
    → total s.protected_data < 2 ^ 31
    → (value : List ℕ) × (serialize s
        ≡ some (record s { dirty = false; size_written = length value }, value))
      × (deserialize no_keys (some value)
          ≡ (record s { dirty = false; size_written = length value }, true))
unfolding deserialize Sorted
deserialize-serialize s h t small =
    let l = s.protected_data in
    (
      encoded l,
      serialize-encoded s t small,
      rw (deserialize_loop-encoded (length (encoded l)) [] l (omega arith) t h) refl,
    )
