-- ===== src/Utils/Url/RoundTrip.antt =====
-- Encoded texts, decoded again.
use here_data_sdk_cpp.Common.{
  ℕ, ◌/◌, ◌%◌, ◌<◌, ◌≡◌, ◌∙◌, refl, ap, arith, Bool, true, false, ◌||◌, List, [], ◌∷◌, some, length,
  ◌^◌, ltb, ◌==◌, if◌then◌else◌,
}
use here_data_sdk_cpp.Utils.Url.Decoded.{unescaped, decode-unescaped}
use here_data_sdk_cpp.Utils.Url.{
  between, is_hex_digit, hex_value, hex_to_int, is_escape, decode_byte, decode, is_unreserved,
  hex_digit, encode,
}

unfoldable pub bytes : List ℕ → Bool
bytes [] = true
bytes (x ∷ s) = if ltb x 256 then bytes s else false

hex_digit-is_hex_digit : (d : ℕ) → d < 16 → is_hex_digit (hex_digit d) ≡ true
unfolding is_hex_digit hex_digit between
hex_digit-is_hex_digit d h = ground arith

hex_value-hex_digit : (d : ℕ) → d < 16 → hex_value (hex_digit d) ≡ d
unfolding hex_value hex_digit
hex_value-hex_digit d h = ground arith

unreserved_plain : (x : ℕ) → is_unreserved x ≡ true → (decode_byte x ≡ x) × ((x == 37) ≡ false)
unfolding is_unreserved between decode_byte
unreserved_plain x h = (ground arith, ground arith)

unescaped_nil : unescaped [] ≡ []
unescaped_nil = refl

step : Bool → ℕ → ℕ → ℕ → List ℕ → List ℕ
step true x y z s = hex_to_int y z ∷ unescaped s
step false x y z s = decode_byte x ∷ unescaped (y ∷ z ∷ s)

unescaped-step :
    (x y z : ℕ) (s : List ℕ) {b : Bool}
    → is_escape x y z ≡ b
    → unescaped (x ∷ y ∷ z ∷ s) ≡ step b x y z s
unfolding step
unescaped-step x y z s e = ground arith

is_escape_plain : (x y z : ℕ) → (x == 37) ≡ false → is_escape x y z ≡ false
unfolding is_escape
is_escape_plain x y z h = ground arith

is_escape_percent :
    (y z : ℕ) → is_hex_digit y ≡ true → is_hex_digit z ≡ true → is_escape 37 y z ≡ true
unfolding is_escape
is_escape_percent y z h h' = ground arith

unescaped_plain :
    (x : ℕ) (s : List ℕ) → is_unreserved x ≡ true → unescaped (x ∷ s) ≡ x ∷ unescaped s
unfolding step
unescaped_plain x [] h = cc (unreserved_plain x h).0
unescaped_plain x (y ∷ []) h = cc (unreserved_plain x h).0
unescaped_plain x (y ∷ z ∷ s) h = cc (
  unescaped-step x y z s (is_escape_plain x y z (unreserved_plain x h).1),
  (unreserved_plain x h).0,
)

hex_to_int-hex_digit : (x : ℕ) → x < 256 → hex_to_int (hex_digit (x / 16)) (hex_digit (x % 16)) ≡ x
unfolding hex_to_int
hex_to_int-hex_digit x h =
    omega (
      arith,
      hex_value-hex_digit (x / 16) (omega arith),
      hex_value-hex_digit (x % 16) (omega arith),
    )

unescaped_escape :
    (x : ℕ) (s : List ℕ)
    → x < 256
    → unescaped (37 ∷ hex_digit (x / 16) ∷ hex_digit (x % 16) ∷ s) ≡ x ∷ unescaped s
unfolding step
unescaped_escape x s h =
    let y = hex_digit (x / 16) in
    let z = hex_digit (x % 16) in
    let escape =
      is_escape_percent y z (hex_digit-is_hex_digit (x / 16) (omega arith))
        (hex_digit-is_hex_digit (x % 16) (omega arith)) in
    unescaped-step 37 y z s escape ∙ ap (λ a. a ∷ unescaped s) (hex_to_int-hex_digit x h)

unescaped-encode : (s : List ℕ) → bytes s ≡ true → unescaped (encode s) ≡ s
unfolding encode bytes
unescaped-encode [] h = unescaped_nil
unescaped-encode (x ∷ s) h =
    ground (arith, unescaped-encode s, unescaped_plain x (encode s), unescaped_escape x (encode s))

-- Decoding the encoding of a text of bytes ends and gives the text back, where the encoding has
-- less than 2 ^ 32 bytes.
pub decode-encode :
    (s : List ℕ) → bytes s ≡ true → length (encode s) < 2 ^ 32 → decode (encode s) ≡ some s
decode-encode s h small = decode-unescaped (encode s) small ∙ ap some (unescaped-encode s h)

-- The bytes that an encoded text has: the unreserved ones, '%', and no other.
unfoldable pub safe : List ℕ → Bool
safe [] = true
safe (x ∷ s) = if is_unreserved x || x == 37 then safe s else false

hex_digit-is_unreserved : (d : ℕ) → d < 16 → is_unreserved (hex_digit d) ≡ true
unfolding is_unreserved between hex_digit
hex_digit-is_unreserved d h = ground arith

-- An encoded text of bytes has unreserved bytes and '%' only, so that none of the separators of an
-- url stands in it.
pub encode-safe : (s : List ℕ) → bytes s ≡ true → safe (encode s) ≡ true
unfolding encode bytes safe
encode-safe [] h = refl
encode-safe (x ∷ s) h =
    ground
      (arith, encode-safe s, hex_digit-is_unreserved (x / 16), hex_digit-is_unreserved (x % 16))
