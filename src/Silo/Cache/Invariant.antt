-- ===== src/Silo/Cache/Invariant.antt =====
-- What holds of a page cache between two operations, with `held` bytes in outstanding reservations.
use bloem_community_crowquil.Prelude.{
  ℕ, ◌<◌, ◌≡◌, refl, sym, ◌∙◌, Bool, Bytes, FilePath, List, none, some, true, false, if◌then◌else◌,
}
use bloem_community_crowquil.Prelude.Int.{ℤ, ◌+ℤ◌, ◌≤ℤ◌}
use bloem_community_crowquil.Silo.Cache.State.{CacheEntry, PageCache}
use bloem_community_crowquil.Silo.Cache.Entries.{
  find, update, entries_total, HasUniqueKeys, AreCharged,
}
use bloem_community_crowquil.Silo.Cache.Entries.Laws
use bloem_community_crowquil.Silo.Cache.Entries.Laws.{KeepsCharge}
use bloem_community_crowquil.Silo.Cache.Pending.{lookup, pending_total, AreOwed}

-- The charges are the exact sums of what the cache still stores, and fit into the budget.
pub record IsAccounted (held : ℤ) (c : PageCache) : Type 0 where
  pub used : c.used_bytes ≡ entries_total c.entries
  pub reserved : c.reserved ≡ held +ℤ pending_total c.pending
  pub budget : c.used_bytes +ℤ c.reserved ≤ℤ c.max_bytes
  pub charged : AreCharged c.entries
  pub owed : AreOwed c.pending
  pub unique : HasUniqueKeys c.entries

-- A write through an entry pointer keeps the accounting.
pub update-IsAccounted :
    {held : ℤ} (f : CacheEntry → CacheEntry) (keeps : KeepsCharge f) (c : PageCache) (key : Bytes)
    → IsAccounted held c
    → IsAccounted held (record c { entries = update key f c.entries })
update-IsAccounted f keeps c key v = record {
  used = v.used ∙ sym (Laws.entries_total-update f keeps key c.entries);
  reserved = v.reserved;
  budget = v.budget;
  charged = Laws.AreCharged-update f keeps key c.entries v.charged;
  owed = v.owed;
  unique = Laws.HasUniqueKeys-update f keeps key c.entries v.unique;
}

-- What cleanup leaves as it was.
pub record SameSettings (c d : PageCache) : Type 0 where
  pub root : d.root ≡ c.root
  pub max_bytes : d.max_bytes ≡ c.max_bytes
  pub fallback_ttl : d.fallback_ttl ≡ c.fallback_ttl
  pub closed : d.closed ≡ c.closed
  pub next_serial : d.next_serial ≡ c.next_serial

-- The reads in progress on the entry under a key.
abbrev pub active_of : Bytes → List CacheEntry → ℕ
active_of k es = elim (find k es) [ none ↦ 0 | some e ↦ e.active ]

-- A cleanup drops or retires entries that no read uses, and keeps the accounting.
pub record Cleans (c d : PageCache) : Type 0 where
  pub settings : SameSettings c d
  pub accounted : (held : ℤ) → IsAccounted held c → IsAccounted held d
  pub active : (k : Bytes) → active_of k d.entries ≡ active_of k c.entries
  pub kept :
      (k : Bytes) (e : CacheEntry)
      → find k c.entries ≡ some e
      → 0 < e.active
      → (b : Bool) × (find k d.entries ≡ some (record e { retired = b }))
  pub absent : (k : Bytes) → find k c.entries ≡ none → find k d.entries ≡ none
  pub settled : (p : FilePath) → lookup p c.pending ≡ none → lookup p d.pending ≡ none

pub Cleans-refl : (c : PageCache) → Cleans c c
Cleans-refl c = record {
  settings = record {
    root = refl;
    max_bytes = refl;
    fallback_ttl = refl;
    closed = refl;
    next_serial = refl;
  };
  accounted = λ held v. v;
  active = λ k. refl;
  kept = λ k e h p. (e.retired, h);
  absent = λ k h. h;
  settled = λ p h. h;
}

pub Cleans-trans : {c d e : PageCache} → Cleans c d → Cleans d e → Cleans c e
Cleans-trans s t = record {
  settings = record {
    root = t.settings.root ∙ s.settings.root;
    max_bytes = t.settings.max_bytes ∙ s.settings.max_bytes;
    fallback_ttl = t.settings.fallback_ttl ∙ s.settings.fallback_ttl;
    closed = t.settings.closed ∙ s.settings.closed;
    next_serial = t.settings.next_serial ∙ s.settings.next_serial;
  };
  accounted = λ held v. t.accounted held (s.accounted held v);
  active = λ k. t.active k ∙ s.active k;
  kept = λ k x h p. let (b, h') = s.kept k x h p in t.kept k (record x { retired = b }) h' p;
  absent = λ k h. t.absent k (s.absent k h);
  settled = λ p h. t.settled p (s.settled p h);
}

pub Cleans-if :
    {c d e : PageCache} (b : Bool) → Cleans c d → Cleans c e → Cleans c (if b then d else e)
Cleans-if true s t = s
Cleans-if false s t = t
