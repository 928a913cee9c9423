-- ===== src/Archive/Names/Runs.antt =====
-- Lemmas on the runs of digits in `naturalCompare` of internal/archive/archive.go, and their numbers.
use bloem_community_crowquil.Prelude.{
  ℕ, zero, suc, ◌+◌, ◌-◌, ◌*◌, ◌≤◌, ◌<◌, ◌≡◌, refl, sym, ap, ◌∙◌, Bytes, [], ◌∷◌, All, length,
  arith, Bool-cases, inl, inr, ltb, ◌==◌, if_cases, ltb→lt,
}
use bloem_community_crowquil.Prelude.Strconv.Printed.{IsDigit}
use bloem_community_crowquil.Archive.Names.{
  Three, less, same, greater, or_else, by_number, compare_bytes, trim_zeros, compare_runs,
}

-- The place value of a digit that has a number of digits behind it.
unfoldable pub place : ℕ → ℕ
place zero = 1
place (suc n) = 10 * place n

-- The number that a run of digits denotes.
unfoldable pub value : Bytes → ℕ
value [] = 0
value (c ∷ s) = (c - 48) * place (length s) + value s

place_mono : (m n : ℕ) → m ≤ n → place m ≤ place n
unfolding place
place_mono zero zero h = omega arith
place_mono zero (suc n) h = let rest = place_mono zero n (omega arith) in omega (arith, rest)
place_mono (suc m) zero h = absurd (omega (arith, h))
place_mono (suc m) (suc n) h = let rest = place_mono m n (omega (arith, h)) in omega (arith, rest)

scaled : (a b p : ℕ) → a ≤ b → a * p ≤ b * p
scaled a b p h = grind arith

scaled_suc : (a b p : ℕ) → suc a ≤ b → a * p + p ≤ b * p
scaled_suc a b p h = grind arith

value-lt : (s : Bytes) → All IsDigit s → value s < place (length s)
unfolding value place
value-lt [] h = omega arith
value-lt (c ∷ s) h =
    let rest = value-lt s h.1 in
    let high = h.0.1 in
    let digit = scaled (c - 48) 9 (place (length s)) (omega (arith, high)) in
    omega (arith, rest, digit)

value-trim_zeros : (s : Bytes) → value (trim_zeros s) ≡ value s
unfolding value trim_zeros
value-trim_zeros [] = refl
value-trim_zeros (c ∷ s) =
    let rest = value-trim_zeros s in
    elim (Bool-cases (c == 48)) [
      | inl zeros ↦ ground (arith, zeros, rest)
      | inr other ↦ rw other refl
    ]

-- A run without zeros in front.
abbrev IsTrimmed : Bytes → Type 0
IsTrimmed [] = Unit
IsTrimmed (c ∷ s) = (49 ≤ c) × (c ≤ 57) × All IsDigit s

trim_zeros-IsTrimmed : (s : Bytes) → All IsDigit s → IsTrimmed (trim_zeros s)
unfolding trim_zeros
trim_zeros-IsTrimmed [] h = tt
trim_zeros-IsTrimmed (c ∷ s) h =
    let rest = trim_zeros-IsTrimmed s h.1 in
    let low = h.0.0 in
    if_cases IsTrimmed (c == 48) (λ zeros. rest) (λ other. (ground (arith, other, low), h.0.1, h.1))

IsTrimmed-All : (s : Bytes) → IsTrimmed s → All IsDigit s
IsTrimmed-All [] h = tt
IsTrimmed-All (c ∷ s) h = ((omega (arith, h.0), h.1), h.2)

by_number-lt : (x y : ℕ) → x < y → by_number x y ≡ less
unfolding by_number
by_number-lt x y h = ground (arith, h)

by_number-gt : (x y : ℕ) → y < x → by_number x y ≡ greater
unfolding by_number
by_number-gt x y h = ground (arith, h)

by_number-eq : (x y : ℕ) → x ≡ y → by_number x y ≡ same
unfolding by_number
by_number-eq x y h = ground (arith, h)

-- A longer number without zeros in front is greater.
value-shorter :
    (s t : Bytes) → All IsDigit s → IsTrimmed t → length s < length t → value s < value t
unfolding value
value-shorter s [] hs ht h = absurd (omega (arith, h))
value-shorter s (c ∷ t) hs ht h =
    let below = value-lt s hs in
    let wide = place_mono (length s) (length t) (omega (arith, h)) in
    let low = ht.0 in
    let digit = scaled 1 (c - 48) (place (length t)) (omega (arith, low)) in
    omega (arith, below, wide, digit)

-- A smaller digit in front makes a smaller number.
value-first :
    (x y : ℕ) (s t : Bytes)
    → All IsDigit s
    → length s ≡ length t
    → 48 ≤ x
    → x < y
    → value (x ∷ s) < value (y ∷ t)
unfolding value
value-first x y s t hs same_length low h =
    let below = value-lt s hs in
    let digits = scaled_suc (x - 48) (y - 48) (place (length t)) (omega (arith, low, h)) in
    rw same_length (omega (arith, below, digits, ap place same_length))

by_number-add : (k m n : ℕ) → by_number (k + m) (k + n) ≡ by_number m n
unfolding by_number
by_number-add k m n = ground arith

-- The same digit in front leaves the comparison to the rest.
value-same_first :
    (x y : ℕ) (s t : Bytes)
    → length s ≡ length t
    → x ≡ y
    → by_number (value (x ∷ s)) (value (y ∷ t)) ≡ by_number (value s) (value t)
unfolding value
value-same_first x y s t same_length e =
    rw (same_length, e) (by_number-add ((y - 48) * place (length t)) (value s) (value t))

-- Numbers of the same length compare digit by digit.
compare_bytes-value :
    (s t : Bytes)
    → All IsDigit s
    → All IsDigit t
    → length s ≡ length t
    → compare_bytes s t ≡ by_number (value s) (value t)
unfolding compare_bytes
compare_bytes-value [] [] hs ht h = sym (by_number-eq (value []) (value []) refl)
compare_bytes-value [] (y ∷ t) hs ht h = absurd (omega (arith, h))
compare_bytes-value (x ∷ s) [] hs ht h = absurd (omega (arith, h))
compare_bytes-value (x ∷ s) (y ∷ t) hs ht h =
    let same_length : length s ≡ length t = omega (arith, h) in
    let rest = compare_bytes-value s t hs.1 ht.1 same_length in
    let low = hs.0.0 in
    let low' = ht.0.0 in
    elim (Bool-cases (ltb x y)) [
      | inl before ↦
          let x_first = ltb→lt x y before in
          rw (by_number-lt x y x_first) (
            sym (
              by_number-lt (value (x ∷ s)) (value (y ∷ t))
                (value-first x y s t hs.1 same_length low x_first)))
      | inr not_before ↦ elim (Bool-cases (ltb y x)) [
        | inl behind ↦
            let y_first = ltb→lt y x behind in
            rw (by_number-gt x y y_first) (
              sym (
                by_number-gt (value (x ∷ s)) (value (y ∷ t))
                  (value-first y x t s ht.1 (sym same_length) low' y_first)))
        | inr not_behind ↦
            let e : x ≡ y = ground (arith, not_before, not_behind) in
            rw (by_number-eq x y e) (rest ∙ sym (value-same_first x y s t same_length e))
      ]
    ]

-- Trimmed runs compare by their lengths and then by their bytes.
trimmed-value :
    (s t : Bytes)
    → IsTrimmed s
    → IsTrimmed t
    → or_else (by_number (length s) (length t)) (compare_bytes s t) ≡ by_number (value s) (value t)
trimmed-value s t hs ht = elim (Bool-cases (ltb (length s) (length t))) [
  | inl before ↦
      let shorter = ltb→lt (length s) (length t) before in
      rw (by_number-lt (length s) (length t) shorter)
        (sym (by_number-lt (value s) (value t) (value-shorter s t (IsTrimmed-All s hs) ht shorter)))
  | inr not_before ↦ elim (Bool-cases (ltb (length t) (length s))) [
    | inl behind ↦
        let shorter = ltb→lt (length t) (length s) behind in
        rw (by_number-gt (length s) (length t) shorter) (
          sym
            (by_number-gt (value s) (value t) (value-shorter t s (IsTrimmed-All t ht) hs shorter)))
    | inr not_behind ↦
        let e : length s ≡ length t = ground (arith, not_before, not_behind) in
        rw (by_number-eq (length s) (length t) e)
          (compare_bytes-value s t (IsTrimmed-All s hs) (IsTrimmed-All t ht) e)
  ]
]

or_else_assoc : (a b c : Three) → or_else a (or_else b c) ≡ or_else (or_else a b) c
or_else_assoc less b c = refl
or_else_assoc same b c = refl
or_else_assoc greater b c = refl

-- Two runs of digits, however long, compare as the numbers that they denote, and where these are
-- equal by the lengths of the runs, so the one with fewer zeros in front comes first.
pub compare_runs-by_value :
    (s t : Bytes)
    → All IsDigit s
    → All IsDigit t
    → compare_runs s t ≡ or_else (by_number (value s) (value t)) (by_number (length s) (length t))
unfolding compare_runs
compare_runs-by_value s t hs ht =
    let trimmed =
      trimmed-value (trim_zeros s) (trim_zeros t) (trim_zeros-IsTrimmed s hs)
        (trim_zeros-IsTrimmed t ht) in
    or_else_assoc (by_number (length (trim_zeros s)) (length (trim_zeros t)))
      (compare_bytes (trim_zeros s) (trim_zeros t)) (by_number (length s) (length t))
    ∙ ap (λ o. or_else o (by_number (length s) (length t)))
        (trimmed ∙ rw (value-trim_zeros s, value-trim_zeros t) refl)
