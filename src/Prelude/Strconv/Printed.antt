-- ===== src/Prelude/Strconv/Printed.antt =====
-- Lemmas on printed numbers, and on reading them back.
use bloem_community_crowquil.Prelude.{
  if_cases, ℕ, zero, suc, ◌+◌, ◌-◌, ◌*◌, ◌/◌, ◌%◌, ◌^◌, ◌≤◌, ◌<◌, ◌≡◌, ◌≢◌, refl, ap, sym, ◌∙◌,
  false, Bytes, [], ◌∷◌, some, ltb, arith, All, Bool-cases, inl, inr,
}
use bloem_community_crowquil.Prelude.Int.{ℤ, pos, negsuc, ◌≤ℤ◌}
use bloem_community_crowquil.Prelude.Strconv.{
  digits, format_uint, format_int, read_digits, has_underscore, split_base, after_zero, parse_uint,
  parse_int,
}

read_digits-digit :
    (d : ℕ) (n : ℕ) (text : Bytes)
    → d < 10
    → read_digits 10 ((48 + d) ∷ text) n ≡ read_digits 10 text (n * 10 + d)
unfolding read_digits
read_digits-digit d n text h = ground arith

-- The digits of a number are read as that number, whatever text is behind them.
read_digits-digits :
    (f n : ℕ) (text : Bytes) → n < f → read_digits 10 (digits f n text) 0 ≡ read_digits 10 text n
unfolding digits
read_digits-digits zero n text h = absurd (omega (arith, h))
read_digits-digits (suc f) n text h =
    let rest = read_digits-digits f (n / 10) ((48 + n % 10) ∷ text) in
    elim (Bool-cases (ltb n 10)) [
      | inl small ↦ rw small (
          read_digits-digit n 0 text (ground (arith, small))
          ∙ ap (read_digits 10 text) (omega arith))
      | inr large ↦ rw large (
          rest (ground (arith, large, h))
          ∙ read_digits-digit (n % 10) (n / 10) text (omega arith)
          ∙ ap (read_digits 10 text) (omega arith))
    ]

-- A byte between '0' and '9'.
abbrev pub IsDigit : ℕ → Type 0
IsDigit c = (48 ≤ c) × (c ≤ 57)

digits-All : (f n : ℕ) (text : Bytes) → n < f → All IsDigit text → All IsDigit (digits f n text)
unfolding digits
digits-All zero n text h t = t
digits-All (suc f) n text h t =
    let rest = digits-All f (n / 10) ((48 + n % 10) ∷ text) in
    if_cases (All IsDigit) (ltb n 10) (λ small. ((omega arith, ground (arith, small)), t))
      (λ large. rest (ground (arith, large, h)) ((omega arith, omega arith), t))

-- What the digits of a positive number begin with.
abbrev pub IsNumeral : Bytes → Type 0
IsNumeral [] = ⊥
IsNumeral (c ∷ s) = (49 ≤ c) × (c ≤ 57) × All IsDigit s

digits-IsNumeral :
    (f n : ℕ) (text : Bytes) → n < f → 0 < n → All IsDigit text → IsNumeral (digits f n text)
unfolding digits
digits-IsNumeral zero n text h p t = absurd (omega (arith, h))
digits-IsNumeral (suc f) n text h p t =
    let rest = digits-IsNumeral f (n / 10) ((48 + n % 10) ∷ text) in
    if_cases IsNumeral (ltb n 10) (λ small. (omega (arith, p), ground (arith, small), t))
      (λ large.
        rest (ground (arith, large, h)) (ground (arith, large)) ((omega arith, omega arith), t))

has_underscore-digits : (s : Bytes) → All IsDigit s → has_underscore s ≡ false
unfolding has_underscore
has_underscore-digits [] h = refl
has_underscore-digits (c ∷ s) h =
    let rest = has_underscore-digits s h.1 in let bounds = h.0 in ground (arith, rest, bounds)

parse_uint-numeral : (s : Bytes) → IsNumeral s → parse_uint s ≡ read_digits 10 s 0
unfolding parse_uint split_base
parse_uint-numeral [] h = elim h [ ]
parse_uint-numeral (c ∷ s) h =
    let plain = has_underscore-digits (c ∷ s) ((omega (arith, h.0), h.1), h.2) in
    let low = h.0 in let high = h.1 in ground (arith, low, high, plain)

zero_read : parse_uint (format_uint 0) ≡ some 0
unfolding format_uint parse_uint split_base after_zero digits has_underscore read_digits
zero_read = refl

parse_uint-format_uint : (n : ℕ) → parse_uint (format_uint n) ≡ some n
unfolding format_uint read_digits
parse_uint-format_uint zero = zero_read
parse_uint-format_uint (suc n) =
    parse_uint-numeral _ (digits-IsNumeral (suc (suc n)) (suc n) [] (omega arith) (omega arith) tt)
    ∙ read_digits-digits (suc (suc n)) (suc n) [] (omega arith)

format_uint-All : (n : ℕ) → All IsDigit (format_uint n)
unfolding format_uint
format_uint-All n = digits-All (suc n) n [] (omega arith) tt

parse_uint-nil : (n : ℕ) → parse_uint [] ≢ some n
unfolding parse_uint
parse_uint-nil n h = cc

-- A printed number is not empty and has no sign in front.
parse_int-digits :
    (s : Bytes) (n : ℕ)
    → All IsDigit s
    → parse_uint s ≡ some n
    → n < 2 ^ 63
    → parse_int s ≡ some (pos n)
unfolding parse_int
parse_int-digits [] n d h b = absurd (parse_uint-nil n h)
parse_int-digits (c ∷ s) n d h b = let first = d.0 in ground (arith, first, h, b)

digits-IsText : (s : Bytes) → All IsDigit s → All (λ c. c ≢ 0) s
digits-IsText [] h = tt
digits-IsText (c ∷ s) h = let low = h.0 in (λ p. omega (arith, p, low), digits-IsText s h.1)

-- The range of Go's int64.
abbrev pub IsInt64 : ℤ → Type 0
IsInt64 n = (negsuc (2 ^ 63 - 1) ≤ℤ n) × (n ≤ℤ pos (2 ^ 63 - 1))

-- `ParseInt` reads what `FormatInt` writes.
pub parse_int-format_int : (n : ℤ) → IsInt64 n → parse_int (format_int n) ≡ some n
unfolding format_int
parse_int-format_int (pos n) h =
    parse_int-digits (format_uint n) n (format_uint-All n) (parse_uint-format_uint n)
      (omega (arith, h))
parse_int-format_int (negsuc n) h =
    let read = parse_uint-format_uint (suc n) in unfold parse_int in rw read (ground (arith, h))

format_uint-injective : (m n : ℕ) → format_uint m ≡ format_uint n → m ≡ n
format_uint-injective m n h =
    let first = parse_uint-format_uint m in let second = parse_uint-format_uint n in cc

pub format_int-IsText : (n : ℤ) → All (λ c. c ≢ 0) (format_int n)
unfolding format_int
format_int-IsText (pos n) = digits-IsText (format_uint n) (format_uint-All n)
format_int-IsText (negsuc n) =
    (λ p. omega (arith, p), digits-IsText (format_uint (suc n)) (format_uint-All (suc n)))

minus_free : (s t : Bytes) → All IsDigit s → s ≢ b'-' ∷ t
minus_free [] t d h = cc
minus_free (c ∷ s) t d h = let e : c ≡ b'-' = cc in let low = d.0 in omega (arith, e, low)

pub format_int-injective : (m n : ℤ) → format_int m ≡ format_int n → m ≡ n
unfolding format_int
format_int-injective (pos m) (pos n) h = ap pos (format_uint-injective m n h)
format_int-injective (pos m) (negsuc n) h = absurd (minus_free _ _ (format_uint-All m) h)
format_int-injective (negsuc m) (pos n) h = absurd (minus_free _ _ (format_uint-All n) (sym h))
format_int-injective (negsuc m) (negsuc n) h =
    let e = format_uint-injective (suc m) (suc n) cc in
    let e' : m ≡ n = omega (arith, e) in ap negsuc e'
