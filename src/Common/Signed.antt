-- ===== src/Common/Signed.antt =====
-- `std::to_string` and `std::stoll` of a 64-bit signed number, and its sums with a time.
use here_data_sdk_cpp.Common.{
  ℕ, suc, ◌+◌, ◌-◌, ◌^◌, ◌<◌, ◌≤◌, ◌≡◌, refl, sym, ap, ◌∙◌, arith, Bool, false, List, [], ◌∷◌,
  Option, none, some, ltb, leb, ◌==◌, if◌then◌else◌,
}
use here_data_sdk_cpp.Common.Int.{ℤ, pos, negsuc, sub_ℕ}
use here_data_sdk_cpp.Common.Decimal
use here_data_sdk_cpp.Common.Decimal.{
  is_digit, is_space, digits_onto, digits_value, skip_space, digits_value-digits_onto,
  digits_onto_head, to_string_nonempty,
}

unfoldable pub to_string : ℤ → List ℕ
to_string (pos n) = Decimal.to_string n
to_string (negsuc n) = b'-' ∷ Decimal.to_string (suc n)

-- Whether the text starts with a digit: `stoll` throws where it has none.
unfoldable pub starts_with_digit : List ℕ → Bool
starts_with_digit [] = false
starts_with_digit (c ∷ cs) = is_digit c

-- The digits after the sign; a value out of range throws.
unfoldable pub positive : List ℕ → Option ℤ
positive s =
    if starts_with_digit s
    then if ltb (digits_value 0 s) (2 ^ 63) then some (pos (digits_value 0 s)) else none
    else none

unfoldable pub negative : List ℕ → Option ℤ
negative s =
    if starts_with_digit s
    then if digits_value 0 s == 0
      then some (pos 0)
      else if leb (digits_value 0 s) (2 ^ 63)
      then some (negsuc (digits_value 0 s - 1))
      else none
    else none

unfoldable pub stoll_signed : List ℕ → Option ℤ
stoll_signed [] = none
stoll_signed (c ∷ cs) =
    if c == b'-' then negative cs else if c == b'+' then positive cs else positive (c ∷ cs)

-- `std::stoll`, with `none` for the exceptions that it throws.
unfoldable pub stoll : List ℕ → Option ℤ
stoll s = stoll_signed (skip_space s)

-- `z - t` and `z + t` of a `time_t` and a time; `none` is an overflow.
unfoldable pub minus_time : ℤ → ℕ → Option ℤ
minus_time (pos n) t = some (sub_ℕ n t)
minus_time (negsuc n) t = if ltb (n + t) (2 ^ 63) then some (negsuc (n + t)) else none

unfoldable pub plus_time : ℤ → ℕ → Option ℤ
plus_time (pos n) t = if ltb (n + t) (2 ^ 63) then some (pos (n + t)) else none
plus_time (negsuc n) t = some (sub_ℕ t (suc n))

-- `z > 0`.
unfoldable pub is_positive : ℤ → Bool
is_positive (pos n) = ltb 0 n
is_positive (negsuc n) = false

stoll_digits :
    (n c : ℕ) (cs : List ℕ)
    → 48 ≤ c
    → c ≤ 57
    → n < 2 ^ 63
    → digits_value 0 (c ∷ cs) ≡ n
    → stoll (c ∷ cs) ≡ some (pos n)
unfolding stoll stoll_signed positive starts_with_digit is_digit is_space skip_space
stoll_digits n c cs lo hi h e = ground (arith, e)

-- `std::stoll` reads back what `std::to_string` writes of a number that is not negative.
pub stoll-to_string : (n : ℕ) → n < 2 ^ 63 → stoll (to_string (pos n)) ≡ some (pos n)
unfolding to_string Decimal.to_string
stoll-to_string n h =
    let (c, cs, e, lo, hi) = digits_onto_head 20 n [] (omega arith) (omega arith) in
    rw e (
      stoll_digits n c cs lo hi h (
        ap (digits_value 0) (sym e)
        ∙ digits_value-digits_onto 20 n [] (omega arith) (omega arith)
        ∙ unfold digits_value in refl))

pub to_string_pos : (n : ℕ) → n < 2 ^ 63 → (c : ℕ) × (cs : List ℕ) × (to_string (pos n) ≡ c ∷ cs)
unfolding to_string
to_string_pos n h = to_string_nonempty n (omega arith)
