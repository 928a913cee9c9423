-- ===== src/Silo/Cache/Remove/Laws.antt =====
-- Lemmas on `removeLocked` of internal/silo/cache.go.
use bloem_community_crowquil.Prelude.{
  ◌≡◌, refl, sym, ◌∙◌, Bool, true, false, Bytes, Bytes-discrete, List, [], ◌∷◌, none, some, inl,
  inr, arith, Option-cases, Bool-cases, ◌||◌, not, ◌==◌,
}
use bloem_community_crowquil.Prelude.Int.{ℤ, ◌-ℤ◌, -ℤ_of_sum, refund_left}
use bloem_community_crowquil.Silo.Cache.State.{
  FileSystem, CacheEntry, PageCache, owned_directory, entry_prefix,
}
use bloem_community_crowquil.Silo.Cache.Entries.{find, update, delete, retire, HasUniqueKeys}
use bloem_community_crowquil.Silo.Cache.Entries.Laws
use bloem_community_crowquil.Silo.Cache.Entries.Laws.{KeepsCharge}
use bloem_community_crowquil.Silo.Cache.Invariant.{
  IsAccounted, update-IsAccounted, active_of, Cleans, Cleans-refl, Cleans-trans,
}
use bloem_community_crowquil.Silo.Cache.Remove.{remove_entry, remove_locked}

pub retire-KeepsCharge : KeepsCharge retire
unfolding retire
retire-KeepsCharge = record { same_key = λ e. refl; same_total = λ e. refl }

-- The entry with the key is dropped, and its charge given back.
dropped-IsAccounted :
    {held : ℤ} (c : PageCache) (key : Bytes) {entry : CacheEntry}
    → find key c.entries ≡ some entry
    → IsAccounted held c
    → IsAccounted held
        (record c { entries = delete key c.entries; used_bytes = c.used_bytes -ℤ entry.total })
dropped-IsAccounted c key {entry} h v =
    let one = Laws.find-charged key c.entries h v.charged in
    record {
      used = -ℤ_of_sum _ _ _ (v.used ∙ sym (Laws.entries_total-delete key c.entries h));
      reserved = v.reserved;
      budget = refund_left c.used_bytes c.reserved entry.total c.max_bytes (omega arith) v.budget;
      charged = Laws.AreCharged-delete key c.entries v.charged;
      owed = v.owed;
      unique = Laws.HasUniqueKeys-delete key c.entries v.unique;
    }

-- Removal has three outcomes: nothing to do, an entry marked, or an entry dropped.
pub data Outcome (fs : FileSystem) (c : PageCache) (key : Bytes) : PageCache × Bool → Type 0 where
  missing : find key c.entries ≡ none → Outcome fs c key (c, true)
  kept :
      {entry : CacheEntry}
      → find key c.entries ≡ some entry
      → Outcome fs c key (record c { entries = update key retire c.entries }, false)
  dropped :
      {entry : CacheEntry}
      → find key c.entries ≡ some entry
      → entry.active ≡ 0
      → fs.remove_all entry.root ≡ true
      → Outcome fs c key (
        record c {
          entries = delete key (update key retire c.entries);
          used_bytes = c.used_bytes -ℤ entry.total;
        },
        true,
      )

remove_entry-Outcome :
    (fs : FileSystem) (c : PageCache) (key : Bytes) (entry : CacheEntry)
    → find key c.entries ≡ some entry
    → Outcome fs c key (remove_entry fs c key entry)
unfolding remove_entry
remove_entry-Outcome fs c key entry found = elim (Bool-cases busy) [
  | inl h ↦ rw h (kept found)
  | inr h ↦ elim (Bool-cases (fs.remove_all entry.root)) [
    | inl gone ↦ rw (h, gone) (dropped found (ground arith) gone)
    | inr stays ↦ rw (h, stays) (kept found)
  ]
]
  where
    busy : Bool
    busy = not (entry.active == 0) || not (owned_directory c.root entry.root entry_prefix)

pub remove_locked-Outcome :
    (fs : FileSystem) (c : PageCache) (key : Bytes) → Outcome fs c key (remove_locked fs c key)
unfolding remove_locked
remove_locked-Outcome fs c key = elim (Option-cases (find key c.entries)) [
  | inl none_there ↦ rw (none_there, remove_locked) (missing none_there)
  | inr (entry, found) ↦ rw (found, remove_locked) (remove_entry-Outcome fs c key entry found)
]

active_of-retire :
    (key k : Bytes) (es : List CacheEntry) → active_of k (update key retire es) ≡ active_of k es
unfolding find update retire
active_of-retire key k [] = refl
active_of-retire key k (x ∷ es) = ground (arith, active_of-retire key k es)

find-retire :
    (key k : Bytes) (es : List CacheEntry) {e : CacheEntry}
    → find k es ≡ some e
    → (b : Bool) × (find k (update key retire es) ≡ some (record e { retired = b }))
unfolding retire
find-retire key k es {e} h = elim (Bytes-discrete k key) [
  | yes p ↦ (true, rw p (Laws.find-update_self retire retire-KeepsCharge key es (rw p at h)))
  | no p ↦ (e.retired, Laws.find-update_ne retire retire-KeepsCharge key k es p ∙ h)
]

module _ (c : PageCache) (key : Bytes) where
  abbrev marked : PageCache
  marked = record c { entries = update key retire c.entries }

  marked-Cleans : Cleans c marked
  marked-Cleans = record {
    settings = ground arith;
    accounted = λ held v. update-IsAccounted retire retire-KeepsCharge c key v;
    active = λ k. active_of-retire key k c.entries;
    kept = λ k e h p. find-retire key k c.entries h;
    absent = λ k h. Laws.find-update-none retire retire-KeepsCharge key k c.entries h;
    settled = λ p h. h;
  }

  find-marked :
      {entry : CacheEntry}
      → find key c.entries ≡ some entry
      → find key marked.entries ≡ some (retire entry)
  find-marked h = Laws.find-update_self retire retire-KeepsCharge key c.entries h

module _ (c : PageCache) (key : Bytes) {entry : CacheEntry}
    (found : find key c.entries ≡ some entry) where
  abbrev trimmed : PageCache
  trimmed = record c { entries = delete key c.entries; used_bytes = c.used_bytes -ℤ entry.total }

  trimmed-Cleans : entry.active ≡ 0 → HasUniqueKeys c.entries → Cleans c trimmed
  trimmed-Cleans idle u = record {
    settings = ground arith;
    accounted = λ held v. dropped-IsAccounted c key found v;
    active = λ k. elim (Bytes-discrete k key) [
      | yes p ↦ rw p (ground (arith, Laws.find-delete_self key c.entries u))
      | no p ↦ ground (arith, Laws.find-delete_ne key k c.entries p)
    ];
    kept = λ k e h p. elim (Bytes-discrete k key) [
      | yes q ↦ absurd (let h' : find key c.entries ≡ some e = rw q at h in ground arith)
      | no q ↦ (e.retired, Laws.find-delete_ne key k c.entries q ∙ h)
    ];
    absent = λ k h. elim (Bytes-discrete k key) [
      | yes q ↦ rw q (Laws.find-delete_self key c.entries u)
      | no q ↦ Laws.find-delete_ne key k c.entries q ∙ h
    ];
    settled = λ p h. h;
  }

-- `removeLocked` is a cleanup: what it drops no read uses.
pub remove_locked-Cleans :
    (fs : FileSystem) (c : PageCache) (key : Bytes)
    → HasUniqueKeys c.entries
    → Cleans c (remove_locked fs c key).0
unfolding retire
remove_locked-Cleans fs c key u = by_outcome (remove_locked-Outcome fs c key)
  where
    by_outcome : {r : PageCache × Bool} → Outcome fs c key r → Cleans c r.0
    by_outcome (missing h) = Cleans-refl c
    by_outcome (kept h) = marked-Cleans c key
    by_outcome (dropped {entry} h idle gone) = Cleans-trans (marked-Cleans c key) (
        trimmed-Cleans (marked c key) key {entry = retire entry} (find-marked c key h) idle
          (Laws.HasUniqueKeys-update retire retire-KeepsCharge key c.entries u))

-- What `removeLocked` reports as removed the map no longer holds.
pub remove_locked-absent :
    (fs : FileSystem) (c : PageCache) (key : Bytes)
    → HasUniqueKeys c.entries
    → (remove_locked fs c key).1 ≡ true
    → find key (remove_locked fs c key).0.entries ≡ none
remove_locked-absent fs c key u = by_outcome (remove_locked-Outcome fs c key)
  where
    by_outcome :
        {r : PageCache × Bool} → Outcome fs c key r → r.1 ≡ true → find key r.0.entries ≡ none
    by_outcome (missing h) e = h
    by_outcome (kept h) e = cc
    by_outcome (dropped h idle gone) e =
        Laws.find-delete_self key (update key retire c.entries)
          (Laws.HasUniqueKeys-update retire retire-KeepsCharge key c.entries u)

-- Removal succeeds where nothing stands in its way.
pub remove_locked-succeeds :
    (fs : FileSystem) (c : PageCache) (key : Bytes) {e : CacheEntry}
    → find key c.entries ≡ some e
    → e.active ≡ 0
    → owned_directory c.root e.root entry_prefix ≡ true
    → fs.remove_all e.root ≡ true
    → (remove_locked fs c key).1 ≡ true
unfolding remove_locked remove_entry
remove_locked-succeeds fs c key {e} found idle owned gone = ground arith

pub remove_locked-closed :
    (fs : FileSystem) (c : PageCache) (key : Bytes) → (remove_locked fs c key).0.closed ≡ c.closed
unfolding remove_locked
remove_locked-closed fs c key = ground arith
