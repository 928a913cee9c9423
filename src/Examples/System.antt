-- ===== src/Examples/System.antt =====
-- A cache of a thousand bytes through which one archive of one page goes.
use bloem_community_crowquil.Prelude.{
  ℕ, ◌+◌, ◌≤◌, ◌<◌, ◌≡◌, refl, Bool, true, false, Bytes, FilePath, FilePath-discrete, codes, List,
  [], ◌∷◌, ◌++◌, Option, Bytes-discrete, ℕ_discrete, has_prefix, none, some, Result, ok, err, arith,
}
use bloem_community_crowquil.Prelude.Int.{int_laws, ℤ, pos, ◌+ℤ◌, ◌≤ℤ◌}
use bloem_community_crowquil.Silo.Cache.State.{
  FileSystem, PageHandle, CacheReservation, CacheEntry, CachedPage, rel_below, owned_path, base,
  expired,
}
use bloem_community_crowquil.Silo.Keys.{normalize_key}
use bloem_community_crowquil.Silo.Cache.Entries
use bloem_community_crowquil.Silo.Cache.Pending
use bloem_community_crowquil.Silo.Cache.Entries.{find, entries_total}
use bloem_community_crowquil.Silo.Cache.Pending.{pending_total}
use bloem_community_crowquil.Silo.Cache.Sweep.{sweep_locked, retry_pending_locked}
use bloem_community_crowquil.Silo.Cache.Evict
use bloem_community_crowquil.Silo.Cache.Evict.{reserve, evict_until_locked, evict_rounds, is_over}
use bloem_community_crowquil.Silo.Cache.Lookup
use bloem_community_crowquil.Silo.Cache.Commit
use bloem_community_crowquil.Silo.Cache.Commit.{ReportedPage}
use bloem_community_crowquil.Silo.Cache.System.{
  System, Reach, here, next, Step, init, push, claims, IsUnclaimed,
}
use bloem_community_crowquil.Silo.Cache.System.Counts.{held}
use bloem_community_crowquil.Silo.Cache.Invariant.{IsAccounted}
use bloem_community_crowquil.Silo.Cache.System.Steps.{init-IsSound, Reach-IsSound}
use bloem_community_crowquil.Silo.Cache.System.Safety.{budget_kept, handle_pinned}

abbrev pub fs : FileSystem
fs = record {
  lstat = λ p. some (record { is_regular = true; size = pos 100 });
  stat = λ p. some (record { is_regular = true; size = pos 100 });
  remove_all = λ p. true;
  rename = λ p q. true;
}

abbrev pub root : FilePath
root = codes "cache" ∷ []

abbrev pub job : FilePath
job = codes "cache" ∷ codes ".job-1" ∷ []

abbrev pub key : Bytes
key = codes "0123456789abcdef0123456789abcdef0123456789abcdef0123456789abcdef"

abbrev pub start : System
start = init root (pos 1000) 60

abbrev pub reserved : System
reserved = record start {
  cache = (Evict.reserve fs (pos 400) 5 start.cache).0;
  reservations = push (Evict.reserve fs (pos 400) 5 start.cache).1 start.reservations;
}

abbrev granted : CacheReservation
granted = record { bytes = pos 400; job_dir = none; committed = false; used = false }

abbrev pub opened_reservation : CacheReservation
opened_reservation = record granted { job_dir = some job }

abbrev pub opened : System
opened = record reserved { reservations = opened_reservation ∷ [] }

abbrev pub reported : List ReportedPage
reported =
    record {
      name = codes "1.png";
      file = some (codes "cache" ∷ codes ".job-1" ∷ codes "1.png" ∷ []);
      size = pos 100;
      media_type = codes "image/png";
    }
    ∷ []

abbrev pub commit_opened : Commit.Commit
commit_opened = Commit.commit fs opened.cache opened_reservation key [] job reported 7

abbrev pub committed : System
committed = record opened { cache = commit_opened.0; reservations = commit_opened.1 ∷ [] }

abbrev pub looked_up : System
looked_up = record committed {
  cache = (Lookup.lookup fs key 9 committed.cache).0;
  handles = push (Lookup.lookup fs key 9 committed.cache).1 committed.handles;
}

abbrev pub cached : CachedPage
cached = record {
  name = codes "1.png";
  file = codes "cache" ∷ codes ".job-1" ∷ codes "1.png" ∷ [];
  size = pos 100;
  media_type = codes "image/png";
}

abbrev handle : PageHandle
handle = record { serial = 0; key = key }

reserved_reservations : reserved.reservations ≡ granted ∷ []
unfolding reserve init sweep_locked retry_pending_locked evict_until_locked is_over ◌+ℤ◌
reserved_reservations = refl

job-IsUnclaimed : IsUnclaimed job reserved
unfolding reserve init sweep_locked retry_pending_locked evict_until_locked is_over ◌+ℤ◌ claims
    Pending.lookup
job-IsUnclaimed = refl

looked_up_handles : looked_up.handles ≡ handle ∷ []
unfolding reserve init sweep_locked retry_pending_locked evict_until_locked is_over ◌+ℤ◌
    Commit.commit Commit.after_convert Commit.commit_locked Commit.publish Commit.convert_pages
    Commit.convert_page Commit.valid_page_file rel_below owned_path base normalize_key
    FilePath-discrete Bytes-discrete Entries.insert Lookup.lookup Entries.find Lookup.pages_present
    expired ℕ_discrete bloem_community_crowquil.Prelude.Int.◌-ℤ◌ Commit.fallback_expiry
looked_up_handles = refl

Reach-reserved : Reach start reserved
Reach-reserved = next here (Step.reserve fs (pos 400) 5)

Reach-looked_up : Reach start looked_up
Reach-looked_up =
    next
      (next
        (next Reach-reserved
          (Step.open_job [] granted [] job reserved_reservations refl job-IsUnclaimed))
        (Step.commit fs [] opened_reservation [] key [] job reported 7 refl))
      (Step.look_up fs key 9)

budget_kept_example :
    (looked_up.cache.used_bytes ≡ entries_total looked_up.cache.entries)
    × (looked_up.cache.reserved
        ≡ held looked_up.reservations +ℤ pending_total looked_up.cache.pending)
    × (looked_up.cache.used_bytes +ℤ looked_up.cache.reserved ≤ℤ pos 1000)
budget_kept_example = budget_kept root (pos 1000) 60 (omega int_laws) Reach-looked_up

handle_pinned_example :
    (e : CacheEntry) × (find handle.key looked_up.cache.entries ≡ some e)
    × (e.serial ≡ handle.serial)
    × (0 < e.active)
handle_pinned_example =
    handle_pinned root (pos 1000) 60 (omega int_laws) Reach-looked_up [] handle [] looked_up_handles

sound : (s : System) → Reach start s → IsAccounted (held s.reservations) s.cache
sound s r = (Reach-IsSound (init-IsSound root (pos 1000) 60 (omega int_laws)) r).0.accounted

Reach-opened : Reach start opened
Reach-opened =
    next Reach-reserved (Step.open_job [] granted [] job reserved_reservations refl job-IsUnclaimed)

pub opened-IsAccounted : IsAccounted (pos 0 +ℤ pos 400) opened.cache
unfolding held
opened-IsAccounted = sound opened Reach-opened

pub committed-IsAccounted : IsAccounted (held committed.reservations) committed.cache
committed-IsAccounted =
    sound committed
      (next Reach-opened (Step.commit fs [] opened_reservation [] key [] job reported 7 refl))
