-- ===== src/Prelude/Strconv.antt =====
-- The conversions of Go's strconv that the program uses: `FormatInt` and `Itoa` in base ten, and
-- `ParseInt` for 64 bits, in base ten or with the base taken from the text.
pub mod Printed
use bloem_community_crowquil.Prelude.{
  ℕ, zero, suc, ◌+◌, ◌-◌, ◌*◌, ◌/◌, ◌%◌, ◌^◌, Bool, true, false, not, ◌&&◌, ◌||◌, Bytes, [], ◌∷◌,
  Option, none, some, ltb, leb, ◌==◌, if◌then◌else◌,
}
use bloem_community_crowquil.Prelude.Int.{ℤ, pos, negsuc}

-- The digits of a number in front of a text. Fuel above the number is enough.
unfoldable pub digits : ℕ → ℕ → Bytes → Bytes
digits zero n text = text
digits (suc f) n text =
    let rest = digits f (n / 10) ((48 + n % 10) ∷ text) in
    if ltb n 10 then (48 + n) ∷ text else rest

unfoldable pub format_uint : ℕ → Bytes
format_uint n = digits (suc n) n []

unfoldable pub format_int : ℤ → Bytes
format_int (pos n) = format_uint n
format_int (negsuc n) = b'-' ∷ format_uint (suc n)

abbrev lower : ℕ → ℕ
lower c = if leb 65 c && leb c 90 then c + 32 else c

-- The value of a byte as a digit in any base.
abbrev digit_of : ℕ → Option ℕ
digit_of c =
    if leb 48 c && leb c 57
    then some (c - 48)
    else if leb 97 (lower c) && leb (lower c) 122
    then some (lower c - 87)
    else none

abbrev push_digit : ℕ → ℕ → Option ℕ → Option ℕ
push_digit base n none = none
push_digit base n (some d) = if ltb d base then some (n * base + d) else none

-- The loop over the digits, which passes over underscores.
unfoldable pub read_digits : ℕ → Bytes → ℕ → Option ℕ
read_digits base [] n = some n
read_digits base (c ∷ s) n =
    if c == b'_'
    then read_digits base s n
    else elim (push_digit base n (digit_of c)) [ none ↦ none | some m ↦ read_digits base s m ]

unfoldable pub has_underscore : Bytes → Bool
has_underscore [] = false
has_underscore (c ∷ s) = (c == b'_') || has_underscore s

-- What the last byte was: a digit or a prefix of a base, an underscore, or something else.
pub data Previous : Type 0 where
  digit underscore other : Previous

abbrev is_number_byte : Bool → ℕ → Bool
is_number_byte hex c = (leb 48 c && leb c 57) || (hex && leb 97 (lower c) && leb (lower c) 102)

-- Underscores stand between digits.
unfoldable pub separates : Bool → Previous → Bytes → Bool
separates hex underscore [] = false
separates hex _ [] = true
separates hex previous (c ∷ s) =
    if is_number_byte hex c
    then separates hex digit s
    else if c == b'_'
    then elim previous [ digit ↦ separates hex underscore s | _ ↦ false ]
    else elim previous [ underscore ↦ false | _ ↦ separates hex other s ]

-- The base that a prefix selects, whether the prefix has a letter, and the digits. The first is what
-- stands behind a zero.
unfoldable pub after_zero : Bytes → ℕ × Bool × Bytes
after_zero (c ∷ d ∷ s) =
    if lower c == b'b'
    then (2, true, d ∷ s)
    else if lower c == b'o'
    then (8, true, d ∷ s)
    else if lower c == b'x'
    then (16, true, d ∷ s)
    else (8, false, c ∷ d ∷ s)
after_zero s = (8, false, s)

unfoldable pub split_base : Bytes → ℕ × Bool × Bytes
split_base [] = (10, false, [])
split_base (c ∷ s) = if c == b'0' then after_zero s else (10, false, c ∷ s)

unfoldable pub underscores_ok : Bytes → Bool
underscores_ok s =
    let (base, prefixed, text) = split_base s in
    if prefixed then separates (base == 16) digit text else separates false other s

unfoldable pub parse_uint : Bytes → Option ℕ
parse_uint [] = none
parse_uint (c ∷ s) =
    let (base, prefixed, text) = split_base (c ∷ s) in
    if has_underscore text && not (underscores_ok (c ∷ s)) then none else read_digits base text 0

-- The tests for the range of int64.
abbrev as_positive : Option ℕ → Option ℤ
as_positive none = none
as_positive (some n) = if leb (2 ^ 63) n then none else some (pos n)

abbrev as_negative : Option ℕ → Option ℤ
as_negative none = none
as_negative (some n) =
    if ltb (2 ^ 63) n then none else if n == 0 then some (pos 0) else some (negsuc (n - 1))

-- `ParseInt` in base ten, where an underscore is no digit; the first is of the text behind a sign.
unfoldable pub parse_digits : Bytes → Option ℕ
parse_digits [] = none
parse_digits (c ∷ s) = if has_underscore (c ∷ s) then none else read_digits 10 (c ∷ s) 0

unfoldable pub parse_decimal : Bytes → Option ℤ
parse_decimal [] = none
parse_decimal (c ∷ s) =
    if c == b'-'
    then as_negative (parse_digits s)
    else as_positive (parse_digits (if c == b'+' then s else c ∷ s))

-- `ParseInt` with the base zero.
unfoldable pub parse_int : Bytes → Option ℤ
parse_int [] = none
parse_int (c ∷ s) =
    if c == b'-'
    then as_negative (parse_uint s)
    else as_positive (parse_uint (if c == b'+' then s else c ∷ s))
