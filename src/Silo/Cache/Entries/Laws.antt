-- ===== src/Silo/Cache/Entries/Laws.antt =====
-- Lookups and sums after the changes of an entry map.
use bloem_community_crowquil.Prelude.{
  ◌≡◌, ◌≢◌, refl, Bytes, Bytes-discrete, List, [], ◌∷◌, none, some, if_neg, arith,
}
use bloem_community_crowquil.Prelude.Int.{pos, ◌+ℤ◌, ◌≤ℤ◌, +ℤ_swap}
use bloem_community_crowquil.Silo.Cache.State.{CacheEntry}
use bloem_community_crowquil.Silo.Cache.Entries.{
  find, update, delete, entries_total, HasUniqueKeys, AreCharged,
}

-- A change of an entry that leaves what the accounting reads.
pub record KeepsCharge (f : CacheEntry → CacheEntry) : Type 0 where
  pub same_key : (e : CacheEntry) → (f e).key ≡ e.key
  pub same_total : (e : CacheEntry) → (f e).total ≡ e.total

pub find-key : (k : Bytes) (es : List CacheEntry) {e : CacheEntry} → find k es ≡ some e → e.key ≡ k
unfolding find
find-key k [] h = cc
find-key k (x ∷ es) {e} h = ground (arith, find-key k es {e = e})

pub find-charged :
    (k : Bytes) (es : List CacheEntry) {e : CacheEntry}
    → find k es ≡ some e
    → AreCharged es
    → pos 1 ≤ℤ e.total
unfolding find
find-charged k [] h c = cc
find-charged k (x ∷ es) {e} h c = ground (arith, find-charged k es {e = e})

pub entries_total-delete :
    (k : Bytes) (es : List CacheEntry) {e : CacheEntry}
    → find k es ≡ some e
    → e.total +ℤ entries_total (delete k es) ≡ entries_total es
unfolding find delete entries_total
entries_total-delete k [] h = cc
entries_total-delete k (x ∷ es) {e} h = elim (Bytes-discrete x.key k) [
  | yes p ↦ ground arith
  | no p ↦
      rw (if_neg _ p, ← entries_total-delete k es {e = e} (ground arith))
        (+ℤ_swap e.total x.total (entries_total (delete k es)))
]

pub delete_absent : (k : Bytes) (es : List CacheEntry) → find k es ≡ none → delete k es ≡ es
unfolding find delete
delete_absent k [] h = refl
delete_absent k (x ∷ es) h = ground (arith, delete_absent k es)

pub find-delete_ne : (k j : Bytes) (es : List CacheEntry) → j ≢ k → find j (delete k es) ≡ find j es
unfolding find delete
find-delete_ne k j [] h = refl
find-delete_ne k j (x ∷ es) h = ground (arith, find-delete_ne k j es)

pub find-delete_self :
    (k : Bytes) (es : List CacheEntry) → HasUniqueKeys es → find k (delete k es) ≡ none
unfolding find delete
find-delete_self k [] u = refl
find-delete_self k (x ∷ es) u = ground (arith, find-delete_self k es)

pub HasUniqueKeys-delete :
    (k : Bytes) (es : List CacheEntry) → HasUniqueKeys es → HasUniqueKeys (delete k es)
unfolding find delete
HasUniqueKeys-delete k [] u = tt
HasUniqueKeys-delete k (x ∷ es) u =
    ground (arith, HasUniqueKeys-delete k es, find-delete_ne k x.key es)

pub AreCharged-delete :
    (k : Bytes) (es : List CacheEntry) → AreCharged es → AreCharged (delete k es)
unfolding delete
AreCharged-delete k [] c = tt
AreCharged-delete k (x ∷ es) c = ground (arith, AreCharged-delete k es)

module _ (f : CacheEntry → CacheEntry) (keeps : KeepsCharge f) where
  pub find-update_self :
      (k : Bytes) (es : List CacheEntry) {e : CacheEntry}
      → find k es ≡ some e
      → find k (update k f es) ≡ some (f e)
  unfolding find update
  find-update_self k [] h = cc
  find-update_self k (x ∷ es) {e} h =
      ground (arith, find-update_self k es {e = e}, keeps.same_key x)

  pub find-update_ne :
      (k j : Bytes) (es : List CacheEntry) → j ≢ k → find j (update k f es) ≡ find j es
  unfolding find update
  find-update_ne k j [] h = refl
  find-update_ne k j (x ∷ es) h = ground (arith, find-update_ne k j es, keeps.same_key x)

  pub find-update-none :
      (k j : Bytes) (es : List CacheEntry) → find j es ≡ none → find j (update k f es) ≡ none
  unfolding find update
  find-update-none k j [] h = refl
  find-update-none k j (x ∷ es) h = ground (arith, find-update-none k j es, keeps.same_key x)

  pub entries_total-update :
      (k : Bytes) (es : List CacheEntry) → entries_total (update k f es) ≡ entries_total es
  unfolding update entries_total
  entries_total-update k [] = refl
  entries_total-update k (x ∷ es) = ground (arith, entries_total-update k es, keeps.same_total x)

  pub HasUniqueKeys-update :
      (k : Bytes) (es : List CacheEntry) → HasUniqueKeys es → HasUniqueKeys (update k f es)
  unfolding find update
  HasUniqueKeys-update k [] u = tt
  HasUniqueKeys-update k (x ∷ es) u =
      ground (arith, HasUniqueKeys-update k es, find-update-none k x.key es, keeps.same_key x)

  pub AreCharged-update :
      (k : Bytes) (es : List CacheEntry) → AreCharged es → AreCharged (update k f es)
  unfolding update
  AreCharged-update k [] c = tt
  AreCharged-update k (x ∷ es) c = ground (arith, AreCharged-update k es, keeps.same_total x)
