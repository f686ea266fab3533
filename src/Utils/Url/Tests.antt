-- ===== src/Utils/Url/Tests.antt =====
-- Concrete texts of urls.
use here_data_sdk_cpp.Common.{
  ℕ, zero, suc, ◌^◌, none, length, ◌≡◌, refl, arith, true, some, List, [], ◌∷◌,
}
use here_data_sdk_cpp.Utils.Url.{decode, decode_loop, encode, is_unreserved, between, hex_digit}
use here_data_sdk_cpp.Utils.Url.Decoded.{decode_endless}
use here_data_sdk_cpp.Utils.Url.RoundTrip.{bytes, decode-encode}

-- "a b%", and a byte that is no character of ASCII.
abbrev mixed : List ℕ
mixed = 97 ∷ 32 ∷ 98 ∷ 37 ∷ 233 ∷ []

mixed-bytes : bytes mixed ≡ true
unfolding bytes
mixed-bytes = refl

decode-encode_example : decode (encode mixed) ≡ some mixed
unfolding encode is_unreserved between hex_digit
decode-encode_example = decode-encode mixed mixed-bytes (omega arith)

unfoldable letters : ℕ → List ℕ
letters zero = []
letters (suc n) = 97 ∷ letters n

length-letters : (n : ℕ) → length (letters n) ≡ n
unfolding letters
length-letters zero = refl
length-letters (suc n) = omega (arith, length-letters n)

decode_endless_example : decode_loop 3 (letters (2 ^ 32)) 0 ≡ none
decode_endless_example =
    decode_endless 3 (letters (2 ^ 32)) (omega (arith, length-letters (2 ^ 32)))
