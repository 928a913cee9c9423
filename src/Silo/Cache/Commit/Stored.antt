-- ===== src/Silo/Cache/Commit/Stored.antt =====
-- What `commit` of internal/silo/cache.go stores where it succeeds.
use bloem_community_crowquil.Prelude.{
  ℕ, suc, ◌+◌, ◌≡◌, ◌≢◌, refl, sym, ap, ◌∙◌, true, false, Bytes, FilePath, List, [], ◌∷◌, ◌++◌, map,
  none, some, ok, length, arith,
}
use bloem_community_crowquil.Prelude.Int.{ℤ, pos, ◌+ℤ◌, ◌-ℤ◌, ◌≤ℤ◌, ltb_ℤ}
use bloem_community_crowquil.Silo.Cache.State.{
  FileSystem, CachedPage, CacheEntry, CacheReservation, PageCache, base,
}
use bloem_community_crowquil.Silo.Cache.Entries.{find, insert, delete}
use bloem_community_crowquil.Silo.Cache.Commit.{
  ReportedPage, Commit, path_of, entry_root, new_entry, published, fallback_expiry,
}
use bloem_community_crowquil.Silo.Cache.Commit.Laws.{AreConverted, pages_total}

-- The pages are the reported ones in their order, moved to a directory under the names of their files.
abbrev pub AreMoved : FilePath → List ReportedPage → List CachedPage → Type 0
AreMoved root [] [] = Unit {0}
AreMoved root (p ∷ ps) (c ∷ cs) =
    (c.name ≡ p.name)
    × (c.size ≡ p.size)
    × (c.media_type ≡ p.media_type)
    × (c.file ≡ root ++ base (path_of p.file) ∷ [])
    × AreMoved root ps cs
AreMoved root _ _ = ⊥

-- A new entry of the reported pages, what the cache is charged, and what the reservation keeps.
pub record IsStored (d : PageCache) (r : CacheReservation) (key fingerprint : Bytes) (now : ℕ)
    (pages : List ReportedPage) (out : Commit) : Type 0 where
  pub entry : CacheEntry
  pub answered : out.2 ≡ ok entry
  pub own_key : entry.key ≡ key
  pub own_serial : entry.serial ≡ d.next_serial
  pub own_root : entry.root ≡ entry_root d key
  pub own_pages : AreMoved entry.root pages entry.pages
  pub own_total : entry.total ≡ pages_total entry.pages
  pub unread : entry.active ≡ 0
  pub live : entry.retired ≡ false
  pub used_now : entry.last_used ≡ now
  pub lasting : length fingerprint ≢ 0 → entry.expires_at ≡ none
  pub passing : length fingerprint ≡ 0 → entry.expires_at ≡ some (now + d.fallback_ttl)
  pub stored : find key out.0.entries ≡ some entry
  pub others : (k : Bytes) → k ≢ key → find k out.0.entries ≡ find k d.entries
  pub charged : out.0.used_bytes ≡ d.used_bytes +ℤ entry.total
  pub given_up : out.0.reserved ≡ d.reserved -ℤ entry.total
  pub serials : out.0.next_serial ≡ suc d.next_serial
  pub kept : out.1.bytes ≡ r.bytes -ℤ entry.total
  pub spent : out.1.committed ≡ true
  pub closed : out.0.closed ≡ d.closed

base-append : (root : FilePath) (x : Bytes) → base (root ++ x ∷ []) ≡ x
unfolding base
base-append [] x = refl
base-append (y ∷ []) x = refl
base-append (y ∷ z ∷ root) x = base-append (z ∷ root) x

AreConverted-moved :
    (fs : FileSystem) (out root : FilePath) (ps : List ReportedPage) (cs : List CachedPage)
    → AreConverted fs out ps cs
    → AreMoved root ps (map (λ (c : CachedPage). record c { file = root ++ base c.file ∷ [] }) cs)
AreConverted-moved fs out root [] [] h = tt
AreConverted-moved fs out root [] (c ∷ cs) h = absurd h
AreConverted-moved fs out root (p ∷ ps) [] h = absurd h
AreConverted-moved fs out root (p ∷ ps) (c ∷ cs) (one, rest) = (
  one.name,
  one.size,
  one.media_type,
  ap (λ (x : Bytes). root ++ x ∷ []) (ap base one.file ∙ base-append out (base (path_of p.file))),
  AreConverted-moved fs out root ps cs rest,
)

pages_total-moved :
    (root : FilePath) (cs : List CachedPage)
    → pages_total (map (λ (c : CachedPage). record c { file = root ++ base c.file ∷ [] }) cs)
      ≡ pages_total cs
unfolding pages_total
pages_total-moved root [] = refl
pages_total-moved root (c ∷ cs) = ap (λ z. c.size +ℤ z) (pages_total-moved root cs)

fallback_expiry-lasting :
    (fingerprint : Bytes) (now ttl : ℕ)
    → length fingerprint ≢ 0
    → fallback_expiry fingerprint now ttl ≡ none
unfolding fallback_expiry
fallback_expiry-lasting [] now ttl h = absurd (h refl)
fallback_expiry-lasting (x ∷ fingerprint) now ttl h = refl

fallback_expiry-passing :
    (fingerprint : Bytes) (now ttl : ℕ)
    → length fingerprint ≡ 0
    → fallback_expiry fingerprint now ttl ≡ some (now + ttl)
unfolding fallback_expiry
fallback_expiry-passing [] now ttl h = refl
fallback_expiry-passing (x ∷ fingerprint) now ttl h = absurd (omega (arith, h))

find-insert : (e : CacheEntry) (es : List CacheEntry) → find e.key (insert e es) ≡ some e
unfolding find insert
find-insert e es = ground arith

find-delete_ne : (j k : Bytes) (es : List CacheEntry) → k ≢ j → find k (delete j es) ≡ find k es
unfolding find delete
find-delete_ne j k [] h = refl
find-delete_ne j k (x ∷ es) h = ground (arith, find-delete_ne j k es, h)

find-insert_ne :
    (k : Bytes) (e : CacheEntry) (es : List CacheEntry)
    → k ≢ e.key
    → find k (insert e es) ≡ find k es
unfolding find insert
find-insert_ne k e es h = ground (arith, h, find-delete_ne e.key k es h)

pub published-IsStored :
    (fs : FileSystem) (out : FilePath) (d : PageCache) (r : CacheReservation)
    (key fingerprint : Bytes) (now : ℕ) (pages : List ReportedPage) (conv : List CachedPage)
    (total : ℤ)
    → AreConverted fs out pages conv
    → total ≡ pages_total conv
    → pos 1 ≤ℤ total
    → IsStored d r key fingerprint now pages
        (published d r (new_entry d key fingerprint now conv total))
published-IsStored fs out d r key fingerprint now pages conv total all exact one =
    let e = new_entry d key fingerprint now conv total in
    let charged : ltb_ℤ (pos 0) total ≡ true = ground (arith, one) in
    record {
      entry = e;
      answered = refl;
      own_key = refl;
      own_serial = refl;
      own_root = refl;
      own_pages = AreConverted-moved fs out (entry_root d key) pages conv all;
      own_total = exact ∙ sym (pages_total-moved (entry_root d key) conv);
      unread = refl;
      live = refl;
      used_now = refl;
      lasting = fallback_expiry-lasting fingerprint now d.fallback_ttl;
      passing = fallback_expiry-passing fingerprint now d.fallback_ttl;
      stored = find-insert e d.entries;
      others = λ k apart. find-insert_ne k e d.entries apart;
      charged = rw charged refl;
      given_up = refl;
      serials = refl;
      kept = refl;
      spent = refl;
      closed = refl;
    }
