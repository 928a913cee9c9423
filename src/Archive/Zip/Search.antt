-- ===== src/Archive/Zip/Search.antt =====
-- The search of `preflightZIP` of internal/archive/zip_preflight.go for the signature of the end
-- record.
use mathlib.Core.Path.{subst}
use bloem_community_crowquil.Prelude.{
  ℕ, zero, suc, ◌≤◌, ◌<◌, ◌≡◌, inl, inr, sym, ap, ◌∙◌, true, false, Bool-cases, Bytes, some, arith,
  drop, has_prefix, ltb,
}
use bloem_community_crowquil.Archive.Zip.{eocd_signature, find_end}

-- The last index up to a bound at which the signature stands.
pub record IsLast (tail : Bytes) (bound last : ℕ) : Type 0 where
  pub inside : last ≤ bound
  pub here : has_prefix (drop last tail) eocd_signature ≡ true
  pub later : (i : ℕ) → last < i → i ≤ bound → has_prefix (drop i tail) eocd_signature ≡ false

at_bound-IsLast :
    (tail : Bytes) (bound last : ℕ)
    → has_prefix (drop bound tail) eocd_signature ≡ true
    → bound ≡ last
    → IsLast tail bound last
at_bound-IsLast tail bound last here same = record {
  inside = omega (arith, same);
  here = rw (sym same) here;
  later = λ i below above. absurd (omega (arith, same, below, above));
}

IsLast-skip :
    (tail : Bytes) (bound last : ℕ)
    → has_prefix (drop (suc bound) tail) eocd_signature ≡ false
    → IsLast tail bound last
    → IsLast tail (suc bound) last
IsLast-skip tail bound last nothing l = record {
  inside = omega (arith, l.inside);
  here = l.here;
  later = λ i below above. elim (Bool-cases (ltb bound i)) [
    | inl beyond ↦ let same : i ≡ suc bound = ground (arith, beyond, above) in rw same nothing
    | inr within ↦ l.later i below (ground (arith, within))
  ];
}

pub find_end-IsLast :
    (tail : Bytes) (bound last : ℕ) → find_end tail bound ≡ some last → IsLast tail bound last
unfolding find_end
find_end-IsLast tail zero last h = elim (Bool-cases (has_prefix tail eocd_signature)) [
  | inl here ↦ at_bound-IsLast tail zero last here (ground (arith, here, h))
  | inr nothing ↦ absurd (ground (arith, nothing, h))
]
find_end-IsLast tail (suc bound) last h =
    elim (Bool-cases (has_prefix (drop (suc bound) tail) eocd_signature)) [
      | inl here ↦ at_bound-IsLast tail (suc bound) last here (ground (arith, here, h))
      | inr nothing ↦
          IsLast-skip tail bound last nothing
            (find_end-IsLast tail bound last (ground (arith, nothing, h)))
    ]

find_end_here :
    (tail : Bytes) (bound : ℕ)
    → has_prefix (drop bound tail) eocd_signature ≡ true
    → find_end tail bound ≡ some bound
unfolding find_end
find_end_here tail zero here = ground (arith, here)
find_end_here tail (suc bound) here = ground (arith, here)

pub find_end_last :
    (tail : Bytes) (bound last : ℕ) → IsLast tail bound last → find_end tail bound ≡ some last
unfolding find_end
find_end_last tail zero last l =
    let same : last ≡ zero = omega (arith, l.inside) in
    let here = subst (λ i. has_prefix (drop i tail) eocd_signature ≡ true) same l.here in
    find_end_here tail zero here ∙ ap some (sym same)
find_end_last tail (suc bound) last l = elim (Bool-cases (ltb last (suc bound))) [
  | inl below ↦
      let nothing = l.later (suc bound) (ground (arith, below)) (omega arith) in
      let rest = find_end_last tail bound last (record {
        inside = ground (arith, below);
        here = l.here;
        later = λ i after within. l.later i after (omega (arith, within));
      }) in
      ground (arith, nothing, rest)
  | inr at_end ↦
      let same : last ≡ suc bound = ground (arith, at_end, l.inside) in
      rw same (find_end_here tail (suc bound) (rw (sym same) l.here))
]
