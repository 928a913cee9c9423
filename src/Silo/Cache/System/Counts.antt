-- ===== src/Silo/Cache/System/Counts.antt =====
-- Sums and counts over the handles and reservations, and how they split at an element.
use bloem_community_crowquil.Prelude.{
  ℕ, ◌+◌, ◌≡◌, refl, Bytes, Bytes-discrete, FilePath, FilePath-discrete, List, [], ◌∷◌, ◌++◌, none,
  some, All, ite, arith,
}
use bloem_community_crowquil.Prelude.Int.{ℤ, pos, ◌+ℤ◌, +ℤ_right_comm}
use bloem_community_crowquil.Silo.Cache.State.{PageHandle, CacheReservation}
use bloem_community_crowquil.Silo.Cache.System.{claims}

-- The bytes that outstanding reservations hold.
unfoldable pub held : List CacheReservation → ℤ
held [] = pos 0
held (r ∷ rs) = held rs +ℤ r.bytes

pub held-middle :
    (front : List CacheReservation) (r : CacheReservation) (back : List CacheReservation)
    → held (front ++ r ∷ back) ≡ held (front ++ back) +ℤ r.bytes
unfolding held
held-middle [] r back = refl
held-middle (x ∷ front) r back =
    rw (held-middle front r back) (+ℤ_right_comm (held (front ++ back)) r.bytes x.bytes)

abbrev pub claim : FilePath → CacheReservation → ℕ
claim p r = elim r.job_dir [ none ↦ 0 | some q ↦ ite (FilePath-discrete q p) 1 0 ]

pub claims-middle :
    (p : FilePath) (front : List CacheReservation) (r : CacheReservation)
    (back : List CacheReservation)
    → claims p (front ++ r ∷ back) ≡ claim p r + claims p (front ++ back)
unfolding claims
claims-middle p [] r back = refl
claims-middle p (x ∷ front) r back = omega (arith, claims-middle p front r back)

-- The handles that point to the entry under a key.
unfoldable pub holds : Bytes → List PageHandle → ℕ
holds k [] = 0
holds k (h ∷ hs) = ite (Bytes-discrete h.key k) 1 0 + holds k hs

pub holds-middle :
    (k : Bytes) (front : List PageHandle) (h : PageHandle) (back : List PageHandle)
    → holds k (front ++ h ∷ back) ≡ ite (Bytes-discrete h.key k) 1 0 + holds k (front ++ back)
unfolding holds
holds-middle k [] h back = refl
holds-middle k (x ∷ front) h back = omega (arith, holds-middle k front h back)

module _ {ℓ κ} {A : Type ℓ} (P : A → Type κ) where
  pub All-middle :
      (front : List A) (x : A) (back : List A)
      → All P (front ++ x ∷ back)
      → P x × All P (front ++ back)
  All-middle [] x back h = h
  All-middle (y ∷ front) x back h =
      let (px, rest) = All-middle front x back h.1 in (px, (h.0, rest))

  pub All-insert :
      (front : List A) (x : A) (back : List A)
      → P x
      → All P (front ++ back)
      → All P (front ++ x ∷ back)
  All-insert [] x back p h = (p, h)
  All-insert (y ∷ front) x back p h = (h.0, All-insert front x back p h.1)
