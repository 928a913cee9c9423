-- ===== src/Examples/Cache.antt =====
-- The operations of internal/silo/cache.go on a cache with one reservation, and with one entry.
use bloem_community_crowquil.Prelude.{
  ◌≤◌, ◌≡◌, refl, true, false, Bytes-discrete, ℕ_discrete, codes, [], ◌∷◌, ◌++◌, FilePath-discrete,
  has_prefix, none, some, ok,
}
use bloem_community_crowquil.Prelude.Int.{pos, ◌+ℤ◌, ◌-ℤ◌, ◌≤ℤ◌}
use bloem_community_crowquil.Silo.Constants.{max_total_bytes}
use bloem_community_crowquil.Silo.Cache.State.{
  CacheEntry, rel_below, base, owned_path, owned_directory, dir, entry_prefix, expired,
}
use bloem_community_crowquil.Silo.Cache.Entries.{find}
use bloem_community_crowquil.Silo.Cache.Entries
use bloem_community_crowquil.Silo.Cache.System.{init}
use bloem_community_crowquil.Silo.Keys.{normalize_key}
use bloem_community_crowquil.Silo.Cache.Pending
use bloem_community_crowquil.Silo.Cache.Sweep.{sweep_locked, retry_pending_locked}
use bloem_community_crowquil.Silo.Cache.Sweep.Expiry.{
  is_stale, sweep_locked-fresh, sweep_locked-stale,
}
use bloem_community_crowquil.Silo.Cache.Evict.{
  reserve, evict_until_locked, oldest_from, is_candidate, is_over,
}
use bloem_community_crowquil.Silo.Cache.Evict.Laws.{Reserved, reserve-Reserved}
use bloem_community_crowquil.Silo.Cache.Evict.Rounds.{HasRoom, evict_until_locked-HasRoom}
use bloem_community_crowquil.Silo.Cache.Evict.Oldest.{oldest_from-le}
use bloem_community_crowquil.Silo.Cache.Lookup
use bloem_community_crowquil.Silo.Cache.Lookup.Laws.{LookedUp, lookup-LookedUp}
use bloem_community_crowquil.Silo.Cache.Commit
use bloem_community_crowquil.Silo.Cache.Commit.{convert_pages, convert_page}
use bloem_community_crowquil.Silo.Cache.Commit.Laws.{AreConverted, pages_total, convert_pages_sound}
use bloem_community_crowquil.Examples.System.{
  fs, job, key, opened, reported, cached, committed, opened-IsAccounted, committed-IsAccounted,
}

convert_opened : convert_pages fs job (pos 0) reported ≡ ok (cached ∷ [], pos 100)
unfolding convert_pages convert_page Commit.valid_page_file rel_below Bytes-discrete ℕ_discrete base
    ◌+ℤ◌ Lookup.is_intact ◌-ℤ◌
convert_opened = refl

convert_pages_sound_example :
    AreConverted fs job reported (cached ∷ [])
    × (pos 100 ≡ pages_total (cached ∷ []))
    × (pos 100 ≤ℤ pos max_total_bytes)
convert_pages_sound_example =
    convert_pages_sound fs job reported (cached ∷ []) (pos 100) convert_opened

nothing_pending : Pending.lookup job opened.cache.pending ≡ none
unfolding reserve init sweep_locked retry_pending_locked evict_until_locked is_over ◌+ℤ◌
    Pending.lookup
nothing_pending = refl

reserve-Reserved_example : Reserved fs (pos 500) opened.cache (reserve fs (pos 500) 8 opened.cache)
reserve-Reserved_example = reserve-Reserved fs (pos 500) 8 opened.cache opened-IsAccounted

evict_until_locked-HasRoom_example :
    HasRoom (pos 900) (evict_until_locked fs (pos 900) committed.cache)
evict_until_locked-HasRoom_example =
    evict_until_locked-HasRoom fs (pos 900) committed.cache committed-IsAccounted

lookup-LookedUp_example : LookedUp fs key 9 committed.cache (Lookup.lookup fs key 9 committed.cache)
lookup-LookedUp_example = lookup-LookedUp fs key 9 committed.cache committed-IsAccounted

abbrev entry : CacheEntry
entry = record {
  serial = 0;
  key = key;
  root = codes "cache" ∷ (codes ".entry-" ++ key) ∷ [];
  pages =
      record cached { file = codes "cache" ∷ (codes ".entry-" ++ key) ∷ codes "1.png" ∷ [] } ∷ [];
  total = pos 100;
  expires_at = some 67;
  last_used = 7;
  active = 0;
  retired = false;
}

committed_entry : find key committed.cache.entries ≡ some entry
unfolding reserve init sweep_locked retry_pending_locked evict_until_locked is_over ◌+ℤ◌
    Commit.commit Commit.after_convert Commit.commit_locked Commit.publish Commit.convert_pages
    Commit.convert_page Commit.valid_page_file rel_below owned_path base normalize_key
    FilePath-discrete Bytes-discrete Entries.insert find ℕ_discrete ◌-ℤ◌ Commit.fallback_expiry
    Lookup.is_intact
committed_entry = refl

entry_owned : owned_directory committed.cache.root entry.root entry_prefix ≡ true
unfolding reserve init sweep_locked retry_pending_locked evict_until_locked is_over ◌+ℤ◌
    Commit.commit Commit.after_convert Commit.commit_locked Commit.publish Commit.convert_pages
    Commit.convert_page Commit.valid_page_file rel_below owned_path base normalize_key
    FilePath-discrete Bytes-discrete Entries.insert find ℕ_discrete ◌-ℤ◌ Commit.fallback_expiry
    Lookup.is_intact owned_directory dir has_prefix
entry_owned = refl

still_fresh : is_stale 8 entry ≡ false
unfolding expired
still_fresh = refl

now_stale : is_stale 67 entry ≡ true
unfolding expired
now_stale = refl

sweep_locked-fresh_example : find key (sweep_locked fs 8 committed.cache).entries ≡ some entry
sweep_locked-fresh_example =
    sweep_locked-fresh fs 8 committed.cache key entry committed-IsAccounted committed_entry
      still_fresh

sweep_locked-stale_example : find key (sweep_locked fs 67 committed.cache).entries ≡ none
sweep_locked-stale_example =
    sweep_locked-stale fs 67 committed.cache key entry committed-IsAccounted committed_entry
      now_stale refl entry_owned refl

abbrev younger : CacheEntry
younger = record entry { key = []; last_used = 9 }

chosen : oldest_from none (younger ∷ entry ∷ []) ≡ some entry
unfolding oldest_from
chosen = refl

younger_found : find [] (younger ∷ entry ∷ []) ≡ some younger
unfolding find Bytes-discrete
younger_found = refl

younger_idle : is_candidate younger ≡ true
unfolding is_candidate
younger_idle = refl

oldest_from-le_example : 7 ≤ 9
oldest_from-le_example =
    oldest_from-le (younger ∷ entry ∷ []) entry chosen [] younger younger_found younger_idle
