-- ===== src/Utils/Url/Decoded.antt =====
-- The loop of `Decode` as a recursion on what is left to read, and where it ends.
use here_data_sdk_cpp.Common.{
  ℕ, zero, suc, ◌+◌, ◌-◌, ◌^◌, ◌<◌, ◌≤◌, ◌≡◌, refl, ap, ◌∙◌, arith, Bool, true, false, List, [],
  ◌∷◌, ◌++◌, none, some, length, length-append, ltb, inl, inr, Bool-cases,
}
use here_data_sdk_cpp.Common.Bits.{u32, u64}
use mathlib.Core.Path.{subst}
use mathlib.Core.List.{append_assoc}
use here_data_sdk_cpp.Utils.Url.{
  hex_to_int, is_hex_digit, is_escape, decode_byte, byte_at, is_escape_at, decoded_at, next_index,
  decode_loop, decode, between,
}

-- A text with its escapes and its `+` replaced.
abbrev pub unescaped : List ℕ → List ℕ
unescaped [] = []
unescaped (x ∷ []) = decode_byte x ∷ []
unescaped (x ∷ y ∷ []) = decode_byte x ∷ decode_byte y ∷ []
unescaped (x ∷ y ∷ z ∷ s) = elim (is_escape x y z) [
  | true ↦ hex_to_int y z ∷ unescaped s
  | false ↦ decode_byte x ∷ unescaped (y ∷ z ∷ s)
]

byte_at-append : (front s : List ℕ) (i : ℕ) → byte_at (front ++ s) (length front + i) ≡ byte_at s i
unfolding byte_at
byte_at-append [] s i = ap (byte_at s) (omega arith)
byte_at-append (x ∷ front) s i =
    let shift : suc (length front) + i ≡ suc (length front + i) = omega arith in
    ap (byte_at (x ∷ (front ++ s))) shift ∙ byte_at-append front s i

-- Whether an escape stands at the front.
abbrev escape_first : List ℕ → Bool
escape_first [] = false
escape_first (x ∷ []) = false
escape_first (x ∷ y ∷ []) = false
escape_first (x ∷ y ∷ z ∷ s) = is_escape x y z

first_byte : (front s : List ℕ) → byte_at (front ++ s) (length front) ≡ byte_at s 0
first_byte front s = ap (byte_at (front ++ s)) (omega arith) ∙ byte_at-append front s 0

-- The byte that stands some places behind the index.
later_byte :
    (front s : List ℕ) (n : ℕ)
    → length front + n < 2 ^ 32
    → byte_at (front ++ s) (u32 (length front + n)) ≡ byte_at s n
later_byte front s n small =
    ap (byte_at (front ++ s)) (omega (arith, small)) ∙ byte_at-append front s n

byte_zero : (x : ℕ) (s : List ℕ) → byte_at (x ∷ s) 0 ≡ x
unfolding byte_at
byte_zero x s = refl

shifted :
    (front taken rest : List ℕ)
    → length (front ++ (taken ++ rest)) < 2 ^ 32
    → length ((front ++ taken) ++ rest) < 2 ^ 32
shifted front taken rest small = rw (append_assoc front taken rest) small

next_index-small : (text : List ℕ) (i : ℕ) → next_index text i < 2 ^ 32
unfolding next_index
next_index-small text i = ground arith

three_bytes :
    (front : List ℕ) (x y z : ℕ) (s : List ℕ)
    → length (front ++ x ∷ y ∷ z ∷ s) < 2 ^ 32
    → is_escape_at (front ++ x ∷ y ∷ z ∷ s) (length front) ≡ is_escape x y z
unfolding is_escape_at byte_at
three_bytes front x y z s small =
    let text = front ++ x ∷ y ∷ z ∷ s in
    let size = length-append front (x ∷ y ∷ z ∷ s) in
    let e0 : byte_at text (length front) ≡ x = first_byte front (x ∷ y ∷ z ∷ s) in
    let e1 : byte_at text (u32 (length front + 1)) ≡ y =
      later_byte front (x ∷ y ∷ z ∷ s) 1 (omega (arith, size, small)) in
    let e2 : byte_at text (u32 (length front + 2)) ≡ z =
      later_byte front (x ∷ y ∷ z ∷ s) 2 (omega (arith, size, small)) in
    let before : ltb (length front) (u64 (length text + 2 ^ 64 - 2)) ≡ true =
      ground (arith, size, small) in
    rw (is_escape_at, before, e0, e1, e2) refl

is_escape_at-escape_first :
    (front : List ℕ) (x : ℕ) (s : List ℕ)
    → length (front ++ x ∷ s) < 2 ^ 32
    → is_escape_at (front ++ x ∷ s) (length front) ≡ escape_first (x ∷ s)
unfolding is_escape_at byte_at is_escape is_hex_digit between
is_escape_at-escape_first [] x [] small = ground arith
is_escape_at-escape_first (w ∷ front) x [] small =
    ground (arith, length-append (w ∷ front) (x ∷ []))
is_escape_at-escape_first front x (y ∷ []) small = ground (arith, length-append front (x ∷ y ∷ []))
is_escape_at-escape_first front x (y ∷ z ∷ s) small = three_bytes front x y z s small

-- One round of the loop.
decode_loop_step :
    (fuel : ℕ) (text : List ℕ) (i byte j : ℕ) (out : List ℕ)
    → i < length text
    → decoded_at text i ≡ byte
    → next_index text i ≡ j
    → decode_loop fuel text j ≡ some out
    → decode_loop (suc fuel) text i ≡ some (byte ∷ out)
unfolding decode_loop
decode_loop_step fuel text i byte j out inside is next done =
    let after : decode_loop fuel text (next_index text i) ≡ some out =
      ap (decode_loop fuel text) next ∙ done in
    ground (arith, after, is)

-- The round that reads the bytes of `taken` and goes on behind them.
round :
    (fuel : ℕ) (front taken rest : List ℕ) (byte : ℕ) (out : List ℕ)
    → 0 < length taken
    → decoded_at (front ++ (taken ++ rest)) (length front) ≡ byte
    → next_index (front ++ (taken ++ rest)) (length front) ≡ length front + length taken
    → decode_loop fuel ((front ++ taken) ++ rest) (length (front ++ taken)) ≡ some out
    → decode_loop (suc fuel) (front ++ (taken ++ rest)) (length front) ≡ some (byte ∷ out)
round fuel front taken rest byte out some_taken is next done =
    let there : decode_loop fuel (front ++ (taken ++ rest)) (length front + length taken)
        ≡ some out =
      subst (λ t. decode_loop fuel t (length front + length taken) ≡ some out)
        (append_assoc front taken rest)
        (subst (λ i. decode_loop fuel ((front ++ taken) ++ rest) i ≡ some out)
          (length-append front taken) done) in
    decode_loop_step fuel (front ++ (taken ++ rest)) (length front) byte
      (length front + length taken) out
      (omega (arith, length-append front (taken ++ rest), length-append taken rest, some_taken)) is
      next there

-- A byte that begins no escape.
plain :
    (front : List ℕ) (x : ℕ) (s : List ℕ)
    → length (front ++ x ∷ s) < 2 ^ 32
    → escape_first (x ∷ s) ≡ false
    → (decoded_at (front ++ x ∷ s) (length front) ≡ decode_byte x)
      × (next_index (front ++ x ∷ s) (length front) ≡ length front + 1)
unfolding decoded_at next_index
plain front x s small no_escape =
    let none_there = is_escape_at-escape_first front x s small ∙ no_escape in
    let first : byte_at (front ++ x ∷ s) (length front) ≡ x =
      first_byte front (x ∷ s) ∙ byte_zero x s in
    (
      rw (decoded_at, none_there, first) refl,
      rw (next_index, none_there) (omega (arith, small, length-append front (x ∷ s))),
    )

escape :
    (front : List ℕ) (x y z : ℕ) (s : List ℕ)
    → length (front ++ x ∷ y ∷ z ∷ s) < 2 ^ 32
    → is_escape x y z ≡ true
    → (decoded_at (front ++ x ∷ y ∷ z ∷ s) (length front) ≡ hex_to_int y z)
      × (next_index (front ++ x ∷ y ∷ z ∷ s) (length front) ≡ length front + 3)
unfolding decoded_at next_index byte_at
escape front x y z s small is =
    let text = front ++ x ∷ y ∷ z ∷ s in
    let size = length-append front (x ∷ y ∷ z ∷ s) in
    let there = is_escape_at-escape_first front x (y ∷ z ∷ s) small ∙ is in
    let e1 : byte_at text (u32 (length front + 1)) ≡ y =
      later_byte front (x ∷ y ∷ z ∷ s) 1 (omega (arith, size, small)) in
    let e2 : byte_at text (u32 (length front + 2)) ≡ z =
      later_byte front (x ∷ y ∷ z ∷ s) 2 (omega (arith, size, small)) in
    (rw (decoded_at, there, e1, e2) refl, rw (next_index, there) (omega (arith, small, size)))

decode_loop-unescaped :
    (fuel : ℕ) (front s : List ℕ)
    → length (front ++ s) < 2 ^ 32
    → length s ≤ fuel
    → decode_loop fuel (front ++ s) (length front) ≡ some (unescaped s)
unfolding decode_loop
decode_loop-unescaped zero front [] small le = ground (arith, length-append front [])
decode_loop-unescaped (suc fuel) front [] small le = ground (arith, length-append front [])
decode_loop-unescaped zero front (x ∷ s) small le = absurd (omega arith)
decode_loop-unescaped (suc fuel) front (x ∷ []) small le =
    let (is, next) = plain front x [] small refl in
    round fuel front (x ∷ []) [] (decode_byte x) [] (omega arith) is next (
      decode_loop-unescaped fuel (front ++ x ∷ []) [] (shifted front (x ∷ []) [] small)
        (omega arith))
decode_loop-unescaped (suc fuel) front (x ∷ y ∷ []) small le =
    let (is, next) = plain front x (y ∷ []) small refl in
    round fuel front (x ∷ []) (y ∷ []) (decode_byte x) (decode_byte y ∷ []) (omega arith) is next (
      decode_loop-unescaped fuel (front ++ x ∷ []) (y ∷ []) (shifted front (x ∷ []) (y ∷ []) small)
        (omega arith))
decode_loop-unescaped (suc fuel) front (x ∷ y ∷ z ∷ s) small le =
    elim (Bool-cases (is_escape x y z)) [
      | inl found ↦
          let (is, next) = escape front x y z s small found in
          round fuel front (x ∷ y ∷ z ∷ []) s (hex_to_int y z) (unescaped s) (omega arith) is next (
            decode_loop-unescaped fuel (front ++ x ∷ y ∷ z ∷ []) s
              (shifted front (x ∷ y ∷ z ∷ []) s small) (omega arith))
          ∙ rw (unescaped, found) refl
      | inr none_found ↦
          let (is, next) = plain front x (y ∷ z ∷ s) small none_found in
          round fuel front (x ∷ []) (y ∷ z ∷ s) (decode_byte x) (unescaped (y ∷ z ∷ s))
            (omega arith) is next
            (decode_loop-unescaped fuel (front ++ x ∷ []) (y ∷ z ∷ s)
              (shifted front (x ∷ []) (y ∷ z ∷ s) small) (omega arith))
          ∙ rw (unescaped, none_found) refl
    ]

-- `Decode` of a text of less than 2 ^ 32 bytes ends.
pub decode-unescaped : (s : List ℕ) → length s < 2 ^ 32 → decode s ≡ some (unescaped s)
unfolding decode
decode-unescaped s small = decode_loop-unescaped (length s) [] s small (omega arith)

decode_loop_endless :
    (fuel : ℕ) (text : List ℕ) (i : ℕ)
    → 2 ^ 32 ≤ length text
    → i < 2 ^ 32
    → decode_loop fuel text i ≡ none
unfolding decode_loop
decode_loop_endless zero text i long small = ground arith
decode_loop_endless (suc fuel) text i long small =
    ground (arith, decode_loop_endless fuel text (next_index text i), next_index-small text i)

-- `Decode` of a text of 2 ^ 32 bytes or more does not end, whatever the text and the fuel: the next
-- index is an `unsigned int`, which stays below the size.
pub decode_endless :
    (fuel : ℕ) (text : List ℕ) → 2 ^ 32 ≤ length text → decode_loop fuel text 0 ≡ none
decode_endless fuel text long = decode_loop_endless fuel text 0 long (omega arith)
