-- ===== src/Archive/Names.antt =====
-- `naturalCompare` of internal/archive/archive.go, by which the pages of an archive are ordered. A loop
-- over two indexes is one over the bytes from them on.
pub mod Order
pub mod Transitive
pub mod Runs
pub mod Total
use bloem_community_crowquil.Prelude.{
  ℕ, zero, suc, Bool, true, false, ◌&&◌, not, Bytes, List, [], ◌∷◌, length, ltb, leb, ◌==◌,
  if◌then◌else◌,
}

-- The results -1, 0 and 1.
pub data Three : Type 0 where
  less same greater : Three

-- A comparison that decides where the one before it does not.
abbrev pub or_else : Three → Three → Three
or_else same next = next
or_else less next = less
or_else greater next = greater

-- `if x != y { if x < y { return -1 }; return 1 }`
unfoldable pub by_number : ℕ → ℕ → Three
by_number x y = if not (x == y) then if ltb x y then less else greater else same

-- `strings.Compare`
unfoldable pub compare_bytes : Bytes → Bytes → Three
compare_bytes [] [] = same
compare_bytes [] (y ∷ t) = less
compare_bytes (x ∷ s) [] = greater
compare_bytes (x ∷ s) (y ∷ t) = or_else (by_number x y) (compare_bytes s t)

abbrev pub is_digit : ℕ → Bool
is_digit c = leb b'0' c && leb c b'9'

-- `strings.TrimLeft(s, "0")`
unfoldable pub trim_zeros : Bytes → Bytes
trim_zeros [] = []
trim_zeros (x ∷ s) = let rest = trim_zeros s in if x == b'0' then rest else x ∷ s

-- The digits at the front, and what follows them.
unfoldable pub run : Bytes → Bytes
run [] = []
run (x ∷ s) = let rest = run s in if is_digit x then x ∷ rest else []

unfoldable pub after_run : Bytes → Bytes
after_run [] = []
after_run (x ∷ s) = let rest = after_run s in if is_digit x then rest else x ∷ s

-- Two runs of digits: by their numbers, and then by their zeros in front.
unfoldable pub compare_runs : Bytes → Bytes → Three
compare_runs s t =
    or_else (by_number (length (trim_zeros s)) (length (trim_zeros t)))
      (or_else (compare_bytes (trim_zeros s) (trim_zeros t)) (by_number (length s) (length t)))

-- The loop, with fuel for its rounds; `same` where it leaves the loop.
unfoldable pub compare_from : ℕ → Bytes → Bytes → Three
compare_from zero s t = same
compare_from (suc fuel) [] t = same
compare_from (suc fuel) (x ∷ s) [] = same
compare_from (suc fuel) (x ∷ s) (y ∷ t) =
    let behind = compare_from fuel (after_run (x ∷ s)) (after_run (y ∷ t)) in
    let next = compare_from fuel s t in
    if is_digit x && is_digit y
    then or_else (compare_runs (run (x ∷ s)) (run (y ∷ t))) behind
    else or_else (by_number x y) next

-- `strings.ToLower` is a parameter. Every round takes a byte of the first name, so as many rounds as
-- it has bytes are enough.
unfoldable pub natural_compare : (Bytes → Bytes) → Bytes → Bytes → Three
natural_compare to_lower a b =
    or_else (compare_from (length (to_lower a)) (to_lower a) (to_lower b))
      (or_else (by_number (length (to_lower a)) (length (to_lower b))) (compare_bytes a b))
