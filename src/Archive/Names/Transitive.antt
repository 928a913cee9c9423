-- ===== src/Archive/Names/Transitive.antt =====
-- Lemmas on `naturalCompare` of internal/archive/archive.go over three names.
use bloem_community_crowquil.Prelude.{
  ℕ, zero, suc, ◌+◌, ◌≤◌, ◌≡◌, ◌≢◌, refl, sym, true, false, ◌&&◌, Bytes, [], ◌∷◌, length,
  Bool-cases, inl, inr, if◌then◌else◌, arith,
}
use bloem_community_crowquil.Archive.Names.{
  Three, less, same, greater, or_else, by_number, compare_bytes, is_digit, trim_zeros, run,
  after_run, compare_runs, compare_from, natural_compare,
}
use bloem_community_crowquil.Archive.Names.Order.{
  by_number-same, compare_from-enough, after_run-le, after_run-digit,
}

-- How the comparisons of the first with the second, the second with the third, and the first with the
-- third fit together.
abbrev pub Composes : Three → Three → Three → Type 0
Composes a b c = (a ≡ same → c ≡ b) × (b ≡ same → c ≡ a) × (a ≡ b → c ≡ a)

or_else-Composes :
    (a b c a' b' c' : Three)
    → Composes a b c
    → Composes a' b' c'
    → Composes (or_else a a') (or_else b b') (or_else c c')
or_else-Composes a b c a' b' c' h h' = ground arith

by_number-Composes : (x y z : ℕ) → Composes (by_number x y) (by_number y z) (by_number x z)
unfolding by_number
by_number-Composes x y z = ground arith

compare_bytes-Composes :
    (s t u : Bytes) → Composes (compare_bytes s t) (compare_bytes t u) (compare_bytes s u)
unfolding compare_bytes
compare_bytes-Composes [] [] [] = ground arith
compare_bytes-Composes [] [] (z ∷ u) = ground arith
compare_bytes-Composes [] (y ∷ t) [] = ground arith
compare_bytes-Composes [] (y ∷ t) (z ∷ u) = ground arith
compare_bytes-Composes (x ∷ s) [] [] = ground arith
compare_bytes-Composes (x ∷ s) [] (z ∷ u) = ground arith
compare_bytes-Composes (x ∷ s) (y ∷ t) [] = ground arith
compare_bytes-Composes (x ∷ s) (y ∷ t) (z ∷ u) =
    or_else-Composes (by_number x y) (by_number y z) (by_number x z) (compare_bytes s t)
      (compare_bytes t u) (compare_bytes s u) (by_number-Composes x y z)
      (compare_bytes-Composes s t u)

compare_runs-Composes :
    (s t u : Bytes) → Composes (compare_runs s t) (compare_runs t u) (compare_runs s u)
unfolding compare_runs
compare_runs-Composes s t u =
    or_else-Composes _ _ _ _ _ _
      (by_number-Composes (length (trim_zeros s)) (length (trim_zeros t)) (length (trim_zeros u)))
      (or_else-Composes _ _ _ _ _ _
        (compare_bytes-Composes (trim_zeros s) (trim_zeros t) (trim_zeros u))
        (by_number-Composes (length s) (length t) (length u)))

-- The loop with the comparison of the lengths after it, as one recursion: a name that ends first is
-- the smaller one.
compare_tokens : ℕ → Bytes → Bytes → Three
compare_tokens zero s t = same
compare_tokens (suc fuel) [] [] = same
compare_tokens (suc fuel) [] (y ∷ t) = less
compare_tokens (suc fuel) (x ∷ s) [] = greater
compare_tokens (suc fuel) (x ∷ s) (y ∷ t) =
    let behind = compare_tokens fuel (after_run (x ∷ s)) (after_run (y ∷ t)) in
    let next = compare_tokens fuel s t in
    if is_digit x && is_digit y
    then or_else (compare_runs (run (x ∷ s)) (run (y ∷ t))) behind
    else or_else (by_number x y) next

-- One round on two bytes, given the comparison of the runs and the two ways to go on.
abbrev token_step : ℕ → ℕ → Three → Three → Three → Three
token_step x y runs behind next =
    if is_digit x && is_digit y then or_else runs behind else or_else (by_number x y) next

digits_beside :
    (x y z : ℕ)
    → is_digit x ≡ true
    → is_digit y ≡ true
    → is_digit z ≡ false
    → (by_number y z ≡ by_number x z) × (by_number y z ≢ same)
unfolding by_number
digits_beside x y z dx dy dz = ground arith

digits_behind :
    (x y z : ℕ)
    → is_digit x ≡ false
    → is_digit y ≡ true
    → is_digit z ≡ true
    → (by_number x y ≡ by_number x z) × (by_number x y ≢ same)
unfolding by_number
digits_behind x y z dx dy dz = ground arith

digit_between :
    (x y z : ℕ)
    → is_digit x ≡ true
    → is_digit y ≡ false
    → is_digit z ≡ true
    → (by_number x y ≢ same) × (by_number y z ≢ same) × (by_number x y ≢ by_number y z)
unfolding by_number
digit_between x y z dx dy dz = ground arith

absorb_right : (a d e n n' : Three) → (d ≡ e) × (d ≢ same) → Composes a (or_else d n) (or_else e n')
absorb_right a d e n n' h = ground arith

absorb_left : (d e n n' b : Three) → (d ≡ e) × (d ≢ same) → Composes (or_else d n) b (or_else e n')
absorb_left d e n n' b h = ground arith

absorb_middle :
    (d e n n' c : Three)
    → (d ≢ same) × (e ≢ same) × (d ≢ e)
    → Composes (or_else d n) (or_else e n') c
absorb_middle d e n n' c h = ground arith

token_step-Composes :
    (x y z : ℕ) (r r' r'' b b' b'' n n' n'' : Three)
    → Composes r r' r''
    → Composes b b' b''
    → Composes n n' n''
    → Composes (token_step x y r b n) (token_step y z r' b' n') (token_step x z r'' b'' n'')
token_step-Composes x y z r r' r'' b b' b'' n n' n'' hr hb hn =
    let runs = or_else-Composes r r' r'' b b' b'' hr hb in
    let bytes =
      or_else-Composes (by_number x y) (by_number y z) (by_number x z) n n' n''
        (by_number-Composes x y z) hn in
    elim (Bool-cases (is_digit x)) [
      | inl dx ↦ elim (Bool-cases (is_digit y)) [
        | inl dy ↦ elim (Bool-cases (is_digit z)) [
          | inl dz ↦ rw (dx, dy, dz) runs
          | inr dz ↦
              rw (dx, dy, dz) (absorb_right (or_else r b) _ _ _ _ (digits_beside x y z dx dy dz))
        ]
        | inr dy ↦ elim (Bool-cases (is_digit z)) [
          | inl dz ↦
              rw (dx, dy, dz)
                (absorb_middle _ _ _ _ (or_else r'' b'') (digit_between x y z dx dy dz))
          | inr dz ↦ rw (dx, dy, dz) bytes
        ]
      ]
      | inr dx ↦ elim (Bool-cases (is_digit y)) [
        | inl dy ↦ elim (Bool-cases (is_digit z)) [
          | inl dz ↦
              rw (dx, dy, dz) (absorb_left _ _ _ _ (or_else r' b') (digits_behind x y z dx dy dz))
          | inr dz ↦ rw (dx, dy, dz) bytes
        ]
        | inr dy ↦ rw (dx, dy) bytes
      ]
    ]

compare_tokens-Composes :
    (fuel : ℕ) (s t u : Bytes)
    → Composes (compare_tokens fuel s t) (compare_tokens fuel t u) (compare_tokens fuel s u)
unfolding compare_tokens
compare_tokens-Composes zero s t u = ground arith
compare_tokens-Composes (suc fuel) [] [] [] = ground arith
compare_tokens-Composes (suc fuel) [] [] (z ∷ u) = ground arith
compare_tokens-Composes (suc fuel) [] (y ∷ t) [] = ground arith
compare_tokens-Composes (suc fuel) [] (y ∷ t) (z ∷ u) = ground arith
compare_tokens-Composes (suc fuel) (x ∷ s) [] [] = ground arith
compare_tokens-Composes (suc fuel) (x ∷ s) [] (z ∷ u) = ground arith
compare_tokens-Composes (suc fuel) (x ∷ s) (y ∷ t) [] = ground arith
compare_tokens-Composes (suc fuel) (x ∷ s) (y ∷ t) (z ∷ u) =
    token_step-Composes x y z _ _ _ _ _ _ _ _ _
      (compare_runs-Composes (run (x ∷ s)) (run (y ∷ t)) (run (z ∷ u)))
      (compare_tokens-Composes fuel (after_run (x ∷ s)) (after_run (y ∷ t)) (after_run (z ∷ u)))
      (compare_tokens-Composes fuel s t u)

run-length : (s : Bytes) → length (run s) + length (after_run s) ≡ length s
unfolding run after_run
run-length [] = omega arith
run-length (x ∷ s) = let rest = run-length s in ground arith

by_number-length : (a b c d : ℕ) → a ≡ b → by_number (a + c) (b + d) ≡ by_number c d
unfolding by_number
by_number-length a b c d h = ground arith

compare_runs-length : (s t : Bytes) → compare_runs s t ≡ same → length s ≡ length t
unfolding compare_runs
compare_runs-length s t h = by_number-same (length s) (length t) (ground arith)

-- The lengths of two names that agree on a run compare as what is left of them does.
lengths_after :
    (s t : Bytes)
    → compare_runs (run s) (run t) ≡ same
    → by_number (length s) (length t) ≡ by_number (length (after_run s)) (length (after_run t))
lengths_after s t h =
    rw (sym (run-length s), sym (run-length t))
      (by_number-length (length (run s)) (length (run t)) (length (after_run s))
        (length (after_run t)) (compare_runs-length (run s) (run t) h))

by_number-suc : (x y : ℕ) → by_number (suc x) (suc y) ≡ by_number x y
unfolding by_number
by_number-suc x y = ground arith

by_number_ends :
    (n : ℕ)
    → (by_number 0 0 ≡ same) × (by_number 0 (suc n) ≡ less) × (by_number (suc n) 0 ≡ greater)
unfolding by_number
by_number_ends n = ground arith

or_else_assoc : (a b c : Three) → or_else (or_else a b) c ≡ or_else a (or_else b c)
or_else_assoc less b c = refl
or_else_assoc same b c = refl
or_else_assoc greater b c = refl

or_else-tail : (a b c : Three) → (a ≡ same → b ≡ c) → or_else a b ≡ or_else a c
or_else-tail a b c h = ground arith

tokens-compare_from :
    (fuel : ℕ) (s t : Bytes)
    → length s ≤ fuel
    → length t ≤ fuel
    → compare_tokens fuel s t ≡ or_else (compare_from fuel s t) (by_number (length s) (length t))
unfolding compare_tokens compare_from
tokens-compare_from zero [] [] hs ht = sym (by_number_ends 0).0
tokens-compare_from zero [] (y ∷ t) hs ht = absurd (omega arith)
tokens-compare_from zero (x ∷ s) t hs ht = absurd (omega arith)
tokens-compare_from (suc fuel) [] [] hs ht = sym (by_number_ends 0).0
tokens-compare_from (suc fuel) [] (y ∷ t) hs ht = sym (by_number_ends (length t)).1
tokens-compare_from (suc fuel) (x ∷ s) [] hs ht = sym (by_number_ends (length s)).2
tokens-compare_from (suc fuel) (x ∷ s) (y ∷ t) hs ht =
    let next = tokens-compare_from fuel s t (omega arith) (omega arith) in
    let behind = tokens-compare_from fuel (after_run (x ∷ s)) (after_run (y ∷ t)) in
    let shorter = after_run-le s in
    let shorter' = after_run-le t in
    let skipped = after_run-digit x s in
    let skipped' = after_run-digit y t in
    let after = lengths_after (x ∷ s) (y ∷ t) in
    let stepped = by_number-suc (length s) (length t) in ground arith

module _ (to_lower : Bytes → Bytes) where
  natural_compare-tokens :
      (fuel : ℕ) (a b : Bytes)
      → length (to_lower a) ≤ fuel
      → length (to_lower b) ≤ fuel
      → natural_compare to_lower a b
        ≡ or_else (compare_tokens fuel (to_lower a) (to_lower b)) (compare_bytes a b)
  unfolding natural_compare
  natural_compare-tokens fuel a b ha hb =
      let s = to_lower a in
      let t = to_lower b in
      let loop = compare_from-enough (length s) fuel s t (omega arith) hb in
      let tokens = tokens-compare_from fuel s t ha hb in
      let assoc =
        or_else_assoc (compare_from fuel s t) (by_number (length s) (length t))
          (compare_bytes a b) in
      ground arith

  natural_compare-Composes :
      (a b c : Bytes)
      → Composes
          (natural_compare to_lower a b)
          (natural_compare to_lower b c)
          (natural_compare to_lower a c)
  natural_compare-Composes a b c =
      let fuel = length (to_lower a) + length (to_lower b) + length (to_lower c) in
      rw
        (
          natural_compare-tokens fuel a b (omega arith) (omega arith),
          natural_compare-tokens fuel b c (omega arith) (omega arith),
          natural_compare-tokens fuel a c (omega arith) (omega arith),
        )
        (or_else-Composes _ _ _ _ _ _
          (compare_tokens-Composes fuel (to_lower a) (to_lower b) (to_lower c))
          (compare_bytes-Composes a b c))

  -- Where a first name is not greater than a second one in the natural order, and that one not
  -- greater than a third, the first is not greater than the third.
  pub natural_compare_trans :
      (a b c : Bytes)
      → natural_compare to_lower a b ≢ greater
      → natural_compare to_lower b c ≢ greater
      → natural_compare to_lower a c ≢ greater
  natural_compare_trans a b c h h' = let all = natural_compare-Composes a b c in ground arith
