-- ===== src/Common/Decimal.antt =====
-- `std::to_string` of a 64-bit number and `strtoull` in base 10, on texts as lists of bytes.
use here_data_sdk_cpp.Common.{
  ℕ, zero, suc, ◌+◌, ◌-◌, ◌*◌, ◌/◌, ◌%◌, ◌^◌, ◌≤◌, ◌<◌, ◌≡◌, refl, sym, ap, ◌∙◌, Bool, ◌&&◌, ◌||◌,
  List, [], ◌∷◌, arith, ltb, leb, ◌==◌, if◌then◌else◌, Bool-cases, inl, inr,
}
use native.Mathlib.Nat.{pow-suc}

unfoldable pub is_digit : ℕ → Bool
is_digit c = leb b'0' c && leb c b'9'

-- The C locale's `isspace`: space, tab, line feed, vertical tab, form feed, carriage return.
unfoldable pub is_space : ℕ → Bool
is_space c = c == 32 || (leb 9 c && leb c 13)

-- The digits of `n` in front of `rest`; the fuel bounds the number of digits.
unfoldable pub digits_onto : ℕ → ℕ → List ℕ → List ℕ
digits_onto zero n rest = rest
digits_onto (suc f) n rest =
    let more = digits_onto f (n / 10) ((48 + n % 10) ∷ rest) in
    if ltb n 10 then (48 + n) ∷ rest else more

-- `std::to_string`: 20 digits hold every 64-bit number.
unfoldable pub to_string : ℕ → List ℕ
unfolding digits_onto
to_string n = digits_onto 20 n []

-- The value of the leading digits, and all that the text holds up to the first other character.
unfoldable pub digits_value : ℕ → List ℕ → ℕ
digits_value acc [] = acc
digits_value acc (c ∷ cs) =
    let more = digits_value (acc * 10 + (c - 48)) cs in if is_digit c then more else acc

unfoldable pub skip_space : List ℕ → List ℕ
skip_space [] = []
skip_space (c ∷ cs) = if is_space c then skip_space cs else c ∷ cs

-- A value out of range is `ULLONG_MAX`.
pub saturate : ℕ → ℕ
saturate n = if ltb n (2 ^ 64) then n else 2 ^ 64 - 1

-- The sign, then the digits; `strtoull` negates in the unsigned type.
pub signed_value : List ℕ → ℕ
unfolding digits_value saturate
signed_value [] = 0
signed_value (c ∷ cs) =
    if c == b'-'
    then (let v = digits_value 0 cs in if ltb v (2 ^ 64) then (2 ^ 64 - v) % 2 ^ 64 else 2 ^ 64 - 1)
    else if c == b'+'
    then saturate (digits_value 0 cs)
    else saturate (digits_value 0 (c ∷ cs))

unfoldable pub strtoull : List ℕ → ℕ
unfolding skip_space signed_value
strtoull s = signed_value (skip_space s)

-- Reading the digits of `n` gives `n`, whatever follows them.
pub digits_value-digits_onto :
    (f n : ℕ) (rest : List ℕ)
    → 0 < f
    → n < 10 ^ f
    → digits_value 0 (digits_onto f n rest) ≡ digits_value n rest
unfolding digits_value digits_onto is_digit
digits_value-digits_onto zero n rest pos lt = absurd (omega arith)
digits_value-digits_onto (suc zero) n rest pos lt = ground arith
digits_value-digits_onto (suc (suc f)) n rest pos lt = ground (
  arith,
  pow-suc 10 (suc f),
  digits_value-digits_onto (suc f) (n / 10) ((48 + n % 10) ∷ rest) (omega arith),
)

pub digits_onto_head :
    (f n : ℕ) (rest : List ℕ)
    → 0 < f
    → n < 10 ^ f
    → (c : ℕ) × (cs : List ℕ) × (digits_onto f n rest ≡ c ∷ cs) × (48 ≤ c) × (c ≤ 57)
unfolding digits_onto
digits_onto_head zero n rest pos lt = absurd (omega arith)
digits_onto_head (suc zero) n rest pos lt = (48 + n, rest, ground arith, omega arith, omega arith)
digits_onto_head (suc (suc f)) n rest pos lt = elim (Bool-cases (ltb n 10)) [
  | inl one ↦ (48 + n, rest, rw one, omega arith, ground arith)
  | inr more ↦ rw more (
      digits_onto_head (suc f) (n / 10) ((48 + n % 10) ∷ rest) (omega arith)
        (omega (arith, pow-suc 10 (suc f))))
]

strtoull_digits :
    (n c : ℕ) (cs : List ℕ)
    → 48 ≤ c
    → c ≤ 57
    → n < 2 ^ 64
    → digits_value 0 (c ∷ cs) ≡ n
    → strtoull (c ∷ cs) ≡ n
unfolding strtoull is_space
strtoull_digits n c cs lo hi h e = ground arith

-- `strtoull` reads back what `std::to_string` writes.
pub strtoull-to_string : (n : ℕ) → n < 2 ^ 64 → strtoull (to_string n) ≡ n
unfolding to_string
strtoull-to_string n h =
    let (c, cs, e, lo, hi) = digits_onto_head 20 n [] (omega arith) (omega arith) in
    rw e (
      strtoull_digits n c cs lo hi h (
        ap (digits_value 0) (sym e)
        ∙ digits_value-digits_onto 20 n [] (omega arith) (omega arith)
        ∙ unfold digits_value in refl))

pub to_string_nonempty : (n : ℕ) → n < 2 ^ 64 → (c : ℕ) × (cs : List ℕ) × (to_string n ≡ c ∷ cs)
unfolding to_string
to_string_nonempty n h =
    let (c, cs, e, lo, hi) = digits_onto_head 20 n [] (omega arith) (omega arith) in (c, cs, e)
