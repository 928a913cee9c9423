-- ===== src/Silo/Cache/Pending.antt =====
-- The map `pending` of a page cache: job directories that could not be removed, with their charges.
use bloem_community_crowquil.Prelude.{
  ◌≡◌, ◌≢◌, refl, FilePath, FilePath-discrete, List, [], ◌∷◌, Option, none, some, ite, if_neg,
  arith,
}
use bloem_community_crowquil.Prelude.Int.{ℤ, pos, ◌+ℤ◌, ◌≤ℤ◌, +ℤ_swap}

abbrev pub Pending : Type 0
Pending = List (FilePath × ℤ)

unfoldable pub lookup : FilePath → Pending → Option ℤ
lookup p [] = none
lookup p ((q, b) ∷ m) = ite (FilePath-discrete q p) (some b) (lookup p m)

unfoldable pub delete : FilePath → Pending → Pending
delete p [] = []
delete p ((q, b) ∷ m) = ite (FilePath-discrete q p) m ((q, b) ∷ delete p m)

unfoldable pub put : FilePath → ℤ → Pending → Pending
unfolding delete
put p b m = (p, b) ∷ delete p m

unfoldable pub pending_total : Pending → ℤ
pending_total [] = pos 0
pending_total ((p, b) ∷ m) = b +ℤ pending_total m

abbrev pub AreOwed : Pending → Type 0
AreOwed [] = Unit {0}
AreOwed ((p, b) ∷ m) = (pos 0 ≤ℤ b) × AreOwed m

pub lookup-owed :
    (p : FilePath) (m : Pending) {b : ℤ} → lookup p m ≡ some b → AreOwed m → pos 0 ≤ℤ b
unfolding lookup
lookup-owed p [] h o = cc
lookup-owed p ((q, x) ∷ m) {b} h o = ground (arith, lookup-owed p m {b = b})

pub AreOwed-delete : (p : FilePath) (m : Pending) → AreOwed m → AreOwed (delete p m)
unfolding delete
AreOwed-delete p [] o = tt
AreOwed-delete p ((q, x) ∷ m) o = ground (arith, AreOwed-delete p m)

pub delete_absent : (p : FilePath) (m : Pending) → lookup p m ≡ none → delete p m ≡ m
unfolding lookup delete
delete_absent p [] h = refl
delete_absent p ((q, x) ∷ m) h = ground (arith, delete_absent p m)

pub pending_total-delete :
    (p : FilePath) (m : Pending) {b : ℤ}
    → lookup p m ≡ some b
    → b +ℤ pending_total (delete p m) ≡ pending_total m
unfolding lookup delete pending_total
pending_total-delete p [] h = cc
pending_total-delete p ((q, x) ∷ m) {b} h = elim (FilePath-discrete q p) [
  | yes e ↦ ground arith
  | no e ↦
      rw (if_neg _ e, ← pending_total-delete p m {b = b} (ground arith))
        (+ℤ_swap b x (pending_total (delete p m)))
]

pub lookup-delete-none :
    (p q : FilePath) (m : Pending) → lookup q m ≡ none → lookup q (delete p m) ≡ none
unfolding lookup delete
lookup-delete-none p q [] h = refl
lookup-delete-none p q ((x, b) ∷ m) h = ground (arith, lookup-delete-none p q m)

pub lookup-put :
    (p q : FilePath) (b : ℤ) (m : Pending) → q ≢ p → lookup q m ≡ none → lookup q (put p b m) ≡ none
unfolding lookup put
lookup-put p q b m ne h = ground (arith, lookup-delete-none p q m h)
