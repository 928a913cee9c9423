-- ===== src/Archive/Names/Order.antt =====
-- Lemmas on `naturalCompare` of internal/archive/archive.go.
use mathlib.Core.Path.{subst}
use bloem_community_crowquil.Prelude.{
  ℕ, zero, suc, ◌+◌, ◌≤◌, ◌≡◌, ◌↔◌, refl, sym, ap, ◌∙◌, true, Bytes, [], ◌∷◌, length, arith,
}
use bloem_community_crowquil.Archive.Names.{
  Three, less, same, greater, or_else, by_number, compare_bytes, is_digit, trim_zeros, run,
  after_run, compare_runs, compare_from, natural_compare,
}

-- The result seen from the other side.
abbrev pub flip : Three → Three
flip less = greater
flip same = same
flip greater = less

flip-or_else : (a b : Three) → flip (or_else a b) ≡ or_else (flip a) (flip b)
flip-or_else less b = refl
flip-or_else same b = refl
flip-or_else greater b = refl

by_number-flip : (x y : ℕ) → by_number y x ≡ flip (by_number x y)
unfolding by_number
by_number-flip x y = ground arith

pub by_number-same : (x y : ℕ) → by_number x y ≡ same → x ≡ y
unfolding by_number
by_number-same x y h = ground arith

compare_bytes-flip : (s t : Bytes) → compare_bytes t s ≡ flip (compare_bytes s t)
unfolding compare_bytes
compare_bytes-flip [] [] = refl
compare_bytes-flip [] (y ∷ t) = refl
compare_bytes-flip (x ∷ s) [] = refl
compare_bytes-flip (x ∷ s) (y ∷ t) =
    rw (by_number-flip x y, compare_bytes-flip s t)
      (sym (flip-or_else (by_number x y) (compare_bytes s t)))

compare_runs-flip : (s t : Bytes) → compare_runs t s ≡ flip (compare_runs s t)
unfolding compare_runs
compare_runs-flip s t =
    let numbers = by_number-flip (length (trim_zeros s)) (length (trim_zeros t)) in
    let bytes = compare_bytes-flip (trim_zeros s) (trim_zeros t) in
    let zeros = by_number-flip (length s) (length t) in ground arith

compare_from-flip : (fuel : ℕ) (s t : Bytes) → compare_from fuel t s ≡ flip (compare_from fuel s t)
unfolding compare_from
compare_from-flip zero s t = refl
compare_from-flip (suc fuel) [] [] = refl
compare_from-flip (suc fuel) [] (y ∷ t) = refl
compare_from-flip (suc fuel) (x ∷ s) [] = refl
compare_from-flip (suc fuel) (x ∷ s) (y ∷ t) =
    let behind = compare_from-flip fuel (after_run (x ∷ s)) (after_run (y ∷ t)) in
    let next = compare_from-flip fuel s t in
    let runs = compare_runs-flip (run (x ∷ s)) (run (y ∷ t)) in
    let bytes = by_number-flip x y in ground arith

flip-flip : (a : Three) → flip (flip a) ≡ a
flip-flip less = refl
flip-flip same = refl
flip-flip greater = refl

pub compare_bytes-same : (s t : Bytes) → compare_bytes s t ≡ same → s ≡ t
unfolding compare_bytes
compare_bytes-same [] [] h = refl
compare_bytes-same [] (y ∷ t) h = cc
compare_bytes-same (x ∷ s) [] h = cc
compare_bytes-same (x ∷ s) (y ∷ t) h =
    let first = by_number-same x y in let rest = compare_bytes-same s t in ground arith

pub after_run-le : (s : Bytes) → length (after_run s) ≤ length s
unfolding after_run
after_run-le [] = omega arith
after_run-le (x ∷ s) = let rest = after_run-le s in ground arith

pub after_run-digit : (x : ℕ) (s : Bytes) → is_digit x ≡ true → after_run (x ∷ s) ≡ after_run s
unfolding after_run
after_run-digit x s h = ground arith

enough_left :
    (f g : ℕ) (s t : Bytes) → length s ≤ f → length s ≤ g → compare_from f s t ≡ compare_from g s t
unfolding compare_from
enough_left zero zero s t hf hg = refl
enough_left zero (suc g) [] t hf hg = refl
enough_left zero (suc g) (x ∷ s) t hf hg = absurd (omega arith)
enough_left (suc f) zero [] t hf hg = refl
enough_left (suc f) zero (x ∷ s) t hf hg = absurd (omega arith)
enough_left (suc f) (suc g) [] t hf hg = refl
enough_left (suc f) (suc g) (x ∷ s) [] hf hg = refl
enough_left (suc f) (suc g) (x ∷ s) (y ∷ t) hf hg =
    let shorter = after_run-le s in
    let skipped = after_run-digit x s in
    let behind = enough_left f g (after_run s) (after_run (y ∷ t)) in
    let next = enough_left f g s t (omega arith) (omega arith) in ground arith

enough_right :
    (f g : ℕ) (s t : Bytes) → length t ≤ f → length t ≤ g → compare_from f s t ≡ compare_from g s t
enough_right f g s t hf hg =
    compare_from-flip f t s ∙ ap flip (enough_left f g t s hf hg) ∙ sym (compare_from-flip g t s)

-- The loop of the natural comparison gives the same answer with any fuel that is at least the
-- length of the first name as with any that is at least the length of the second.
pub compare_from-enough :
    (f g : ℕ) (s t : Bytes) → length s ≤ f → length t ≤ g → compare_from f s t ≡ compare_from g s t
compare_from-enough f g s t hf hg =
    enough_left f (f + g) s t hf (omega arith) ∙ enough_right (f + g) g s t (omega arith) hg

module _ (to_lower : Bytes → Bytes) where
  -- Two names compare from one side as the opposite of how they compare from the other, so the
  -- order in which the sort asks does not matter.
  pub natural_compare-flip :
      (a b : Bytes) → natural_compare to_lower b a ≡ flip (natural_compare to_lower a b)
  unfolding natural_compare
  natural_compare-flip a b =
      let s = to_lower a in
      let t = to_lower b in
      let loop =
        compare_from-flip (length t) s t
        ∙ ap flip
            (sym (compare_from-enough (length s) (length t) s t (omega arith) (omega arith))) in
      let sizes = by_number-flip (length s) (length t) in
      let bytes = compare_bytes-flip a b in ground arith

  -- Two names tie in the natural order exactly where they are equal.
  pub natural_compare_iff : (a b : Bytes) → (natural_compare to_lower a b ≡ same) ↔ (a ≡ b)
  unfolding natural_compare
  natural_compare_iff a b = (
    λ h. let equal = compare_bytes-same a b in ground arith,
    λ e. subst (λ z. natural_compare to_lower a z ≡ same) e (ties a),
  )
    where
      ties : (z : Bytes) → natural_compare to_lower z z ≡ same
      ties z = let both = natural_compare-flip z z in ground arith
