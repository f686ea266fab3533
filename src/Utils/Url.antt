-- ===== src/Utils/Url.antt =====
-- `Url` of olp-cpp-sdk-core/src/utils/Url.cpp: the percent encoding of texts, and the query of an
-- url. A text is a list of bytes.
pub mod Decoded
pub mod RoundTrip
pub mod Tests
use here_data_sdk_cpp.Common.{
  ℕ, zero, suc, ◌+◌, ◌-◌, ◌*◌, ◌/◌, ◌%◌, ◌^◌, Bool, true, false, ◌&&◌, ◌||◌, List, [], ◌∷◌, ◌++◌,
  ltb, leb, ◌==◌, if◌then◌else◌, Option, none, some, length, ◌>>=◌,
}
use here_data_sdk_cpp.Common.Bits.{u32, u64}

unfoldable pub between : ℕ → ℕ → ℕ → Bool
between a b c = leb a c && leb c b

-- `std::isxdigit`: the digits, 'A' to 'F' and 'a' to 'f'.
unfoldable pub is_hex_digit : ℕ → Bool
is_hex_digit c = between 48 57 c || between 65 70 c || between 97 102 c

unfoldable pub hex_value : ℕ → ℕ
hex_value c = if leb c 57 then c - 48 else if leb c 70 then c - 55 else c - 87

-- `HexToInt` of two digits.
unfoldable pub hex_to_int : ℕ → ℕ → ℕ
hex_to_int a b = hex_value a * 16 + hex_value b

-- '%' before two digits; `+` stands for a space elsewhere.
unfoldable pub is_escape : ℕ → ℕ → ℕ → Bool
is_escape x y z = x == 37 && is_hex_digit y && is_hex_digit z

unfoldable pub decode_byte : ℕ → ℕ
decode_byte x = if x == 43 then 32 else x

-- `in[i]`; behind the last byte stands the byte 0.
unfoldable pub byte_at : List ℕ → ℕ → ℕ
byte_at [] i = 0
byte_at (x ∷ s) zero = x
byte_at (x ∷ s) (suc i) = byte_at s i

-- The test for an escape at `read_idx`, where `in.size() - 2` is a `size_t`.
unfoldable pub is_escape_at : List ℕ → ℕ → Bool
is_escape_at text i =
    ltb i (u64 (length text + 2 ^ 64 - 2))
    && is_escape (byte_at text i) (byte_at text (u32 (i + 1))) (byte_at text (u32 (i + 2)))

-- The byte that a round gives, and the next `read_idx`, an `unsigned int`.
unfoldable pub decoded_at : List ℕ → ℕ → ℕ
decoded_at text i =
    if is_escape_at text i
    then hex_to_int (byte_at text (u32 (i + 1))) (byte_at text (u32 (i + 2)))
    else decode_byte (byte_at text i)

unfoldable pub next_index : List ℕ → ℕ → ℕ
next_index text i = if is_escape_at text i then u32 (i + 3) else u32 (i + 1)

-- The loop of `Decode`, on fuel; `none` is a loop that has not ended.
unfoldable pub decode_loop : ℕ → List ℕ → ℕ → Option (List ℕ)
decode_loop zero text i = if ltb i (length text) then none else some []
decode_loop (suc fuel) text i =
    let rest = decode_loop fuel text (next_index text i) in
    if ltb i (length text) then (do out ← rest; some (decoded_at text i ∷ out)) else some []

-- A round reads a byte at least, so that this fuel is enough below 2 ^ 32 bytes.
unfoldable pub decode : List ℕ → Option (List ℕ)
decode text = decode_loop (length text) text 0

-- The letters, the digits, '.', '-', '~' and '_'.
unfoldable pub is_unreserved : ℕ → Bool
is_unreserved c =
    between 97 122 c
    || between 65 90 c
    || between 48 57 c
    || c == 46
    || c == 45
    || c == 126
    || c == 95

-- A digit of `%.2X`.
unfoldable pub hex_digit : ℕ → ℕ
hex_digit d = if ltb d 10 then d + 48 else d + 55

unfoldable pub encode : List ℕ → List ℕ
encode [] = []
encode (x ∷ s) =
    if is_unreserved x
    then x ∷ encode s
    else 37 ∷ hex_digit (x / 16) ∷ hex_digit (x % 16) ∷ encode s

-- The query parameters behind the first: `&` and an encoded pair each.
unfoldable pub add_params : ℕ → List (List ℕ × List ℕ) → List ℕ
add_params sign [] = []
add_params sign ((key, value) ∷ l) = sign ∷ (encode key ++ 61 ∷ (encode value ++ add_params 38 l))

-- `Construct`; the first parameter stands behind `?`.
unfoldable pub construct : List ℕ → List ℕ → List (List ℕ × List ℕ) → List ℕ
construct base path query_params = base ++ path ++ add_params 63 query_params
