-- ===== src/Silo/Cache/Commit/Publish.antt =====
-- Lemmas on the answers of `commit` of internal/silo/cache.go.
use bloem_community_crowquil.Prelude.{
  ℕ, ◌≡◌, refl, true, false, not, ◌||◌, Bytes, FilePath, List, none, some, Result, ok, err, length,
  ◌==◌, arith, inl, inr, Option-cases, Result-cases, if_cases,
}
use bloem_community_crowquil.Prelude.Int.{
  ℤ, pos, ◌+ℤ◌, ◌-ℤ◌, ◌≤ℤ◌, ltb_ℤ, +ℤ_move, shift_charge, +ℤ_comm,
}
use bloem_community_crowquil.Silo.Keys.{normalize_key}
use bloem_community_crowquil.Silo.Cache.State.{
  FileSystem, CachedPage, CacheEntry, CacheReservation, PageCache, owned_path,
}
use bloem_community_crowquil.Silo.Cache.Entries.{find, insert, entries_total}
use bloem_community_crowquil.Silo.Cache.Entries.Laws
use bloem_community_crowquil.Silo.Cache.Pending.{pending_total}
use bloem_community_crowquil.Silo.Cache.Invariant.{IsAccounted, Cleans, Cleans-refl}
use bloem_community_crowquil.Silo.Cache.Remove.{remove_locked}
use bloem_community_crowquil.Silo.Cache.Remove.Laws.{remove_locked-Cleans, remove_locked-absent}
use bloem_community_crowquil.Silo.Cache.Commit.{
  ReportedPage, CommitError, cache_full, no_pages, not_published, convert_pages, Commit, entry_root,
  new_entry, published, publish, commit_locked, after_convert, commit,
}
use bloem_community_crowquil.Silo.Cache.Commit.Stored.{IsStored, published-IsStored}
use bloem_community_crowquil.Silo.Cache.Commit.Laws.{
  pages_total, convert_pages_sound, pages_total-pos,
}

module _ (fs : FileSystem) (c : PageCache) (r : CacheReservation) (key fingerprint : Bytes)
    (output_dir : FilePath) (pages : List ReportedPage) (now : ℕ) where
  -- Why `commit` refuses, with the error that it then returns.
  pub data Refusal : CommitError → Type 0 where
    spent : (r.used || r.committed) ≡ true → Refusal cache_full
    nothing_reported : (length pages == 0) ≡ true → Refusal no_pages
    not_converted :
        {e : CommitError} → convert_pages fs output_dir (pos 0) pages ≡ err e → Refusal e
    over_reservation :
        {conv : List CachedPage} {total : ℤ}
        → convert_pages fs output_dir (pos 0) pages ≡ ok (conv, total)
        → ltb_ℤ r.bytes total ≡ true
        → Refusal cache_full
    unusable : (c.closed || (length (normalize_key key) == 0)) ≡ true → Refusal cache_full
    in_use :
        {e : CacheEntry}
        → find key c.entries ≡ some e
        → not (e.active == 0) ≡ true
        → Refusal cache_full
    not_replaced : not (remove_locked fs c key).1 ≡ true → Refusal cache_full
    not_owned :
        (not (owned_path c.root (entry_root c key)) || not (owned_path c.root output_dir)) ≡ true
        → Refusal cache_full
    not_renamed : not (fs.rename output_dir (entry_root c key)) ≡ true → Refusal not_published

  -- What `commit` can answer.
  pub data Committed : Commit → Type 0 where
    refused : {d : PageCache} {e : CommitError} → Refusal e → Cleans c d → Committed (d, r, err e)
    done :
        {d : PageCache} {conv : List CachedPage} {total : ℤ}
        → Cleans c d
        → (r.used || r.committed) ≡ false
        → (length pages == 0) ≡ false
        → convert_pages fs output_dir (pos 0) pages ≡ ok (conv, total)
        → ltb_ℤ r.bytes total ≡ false
        → (c.closed || (length (normalize_key key) == 0)) ≡ false
        → find key d.entries ≡ none
        → IsStored d r key fingerprint now pages
            (published d r (new_entry d key fingerprint now conv total))
        → Committed (published d r (new_entry d key fingerprint now conv total))

  module _ {conv : List CachedPage} {total : ℤ} (open_ : (r.used || r.committed) ≡ false)
      (some_pages : (length pages == 0) ≡ false)
      (converted : convert_pages fs output_dir (pos 0) pages ≡ ok (conv, total))
      (fits : ltb_ℤ r.bytes total ≡ false) where
    publish-Committed :
        (d : PageCache)
        → Cleans c d
        → (c.closed || (length (normalize_key key) == 0)) ≡ false
        → find key d.entries ≡ none
        → Committed (publish fs d r key fingerprint output_dir now conv total)
    unfolding publish
    publish-Committed d s k f =
        let same = s.settings.root in
        if_cases Committed
          (not (owned_path d.root (entry_root d key)) || not (owned_path d.root output_dir))
          (λ b. refused (not_owned (cc same)) s)
          λ _.
            if_cases Committed (not (fs.rename output_dir (entry_root d key)))
              (λ b. refused (not_renamed (cc same)) s)
              λ _.
                let (all, exact, bound) =
                  convert_pages_sound fs output_dir pages conv total converted in
                let stored =
                  published-IsStored fs output_dir d r key fingerprint now pages conv total all
                    exact (rw exact (pages_total-pos fs output_dir pages conv all some_pages)) in
                done s open_ some_pages converted fits k f stored

    commit_locked-Committed :
        {held : ℤ}
        → IsAccounted held c
        → Committed (commit_locked fs c r key fingerprint output_dir now conv total)
    unfolding commit_locked
    commit_locked-Committed v =
        if_cases Committed (c.closed || (length (normalize_key key) == 0))
          (λ b. refused (unusable b) (Cleans-refl c))
          λ k. elim (Option-cases (find key c.entries)) [
            | inl f ↦ rw (f, commit_locked) (publish-Committed c (Cleans-refl c) k f)
            | inr (e, f) ↦
                rw (f, commit_locked)
                  (if_cases Committed (not (e.active == 0))
                    (λ b. refused (in_use f b) (Cleans-refl c))
                    λ _.
                      if_cases Committed (not (remove_locked fs c key).1)
                        (λ b. refused (not_replaced b) removed)
                        λ gone.
                          publish-Committed (remove_locked fs c key).0 removed k
                            (remove_locked-absent fs c key v.unique (ground arith)))
          ]
      where
        removed : Cleans c (remove_locked fs c key).0
        removed = remove_locked-Cleans fs c key v.unique

  convert_cases :
      {held : ℤ}
      → IsAccounted held c
      → (r.used || r.committed) ≡ false
      → (length pages == 0) ≡ false
      → (x : Result CommitError (List CachedPage × ℤ))
      → convert_pages fs output_dir (pos 0) pages ≡ x
      → Committed (after_convert fs c r key fingerprint output_dir now x)
  unfolding after_convert
  convert_cases v o n (err e) h = refused (not_converted h) (Cleans-refl c)
  convert_cases v o n (ok (conv, total)) h =
      if_cases Committed (ltb_ℤ r.bytes total) (λ b. refused (over_reservation h b) (Cleans-refl c))
        λ fits. commit_locked-Committed o n h fits v

  pub commit-Committed :
      {held : ℤ}
      → IsAccounted held c
      → Committed (commit fs c r key fingerprint output_dir pages now)
  unfolding commit
  commit-Committed v =
      if_cases Committed (r.used || r.committed) (λ b. refused (spent b) (Cleans-refl c))
        λ o.
          if_cases Committed (length pages == 0) (λ b. refused (nothing_reported b) (Cleans-refl c))
            λ n. convert_cases v o n _ refl

-- Whatever the cache, a commit that succeeds stores the entry that it answers.
module _ (fs : FileSystem) (r : CacheReservation) (key fingerprint : Bytes) (output_dir : FilePath)
    (pages : List ReportedPage) (now : ℕ) where
  abbrev Stores : Commit → Type 0
  Stores o =
      (entry : CacheEntry)
      → o.2 ≡ ok entry
      → (d : PageCache) × IsStored d r key fingerprint now pages o

  module _ (conv : List CachedPage) (total : ℤ) (some_pages : (length pages == 0) ≡ false)
      (converted : convert_pages fs output_dir (pos 0) pages ≡ ok (conv, total)) where
    publish-Stores :
        (d : PageCache) → Stores (publish fs d r key fingerprint output_dir now conv total)
    unfolding publish
    publish-Stores d =
        if_cases Stores
          (not (owned_path d.root (entry_root d key)) || not (owned_path d.root output_dir))
          (λ b entry h. absurd (ground (arith, h)))
          λ _.
            if_cases Stores (not (fs.rename output_dir (entry_root d key)))
              (λ b entry h. absurd (ground (arith, h)))
              λ _ entry h.
                let (all, exact, bound) =
                  convert_pages_sound fs output_dir pages conv total converted in
                (
                  d,
                  published-IsStored fs output_dir d r key fingerprint now pages conv total all
                      exact (rw exact (pages_total-pos fs output_dir pages conv all some_pages)),
                )

    commit_locked-Stores :
        (c : PageCache) → Stores (commit_locked fs c r key fingerprint output_dir now conv total)
    unfolding commit_locked
    commit_locked-Stores c =
        if_cases Stores (c.closed || (length (normalize_key key) == 0))
          (λ b entry h. absurd (ground (arith, h)))
          λ k. elim (Option-cases (find key c.entries)) [
            | inl f ↦ rw (f, commit_locked) (publish-Stores c)
            | inr (e, f) ↦
                rw (f, commit_locked)
                  (if_cases Stores (not (e.active == 0)) (λ b entry h. absurd (ground (arith, h)))
                    λ _.
                      if_cases Stores (not (remove_locked fs c key).1)
                        (λ b entry h. absurd (ground (arith, h)))
                        λ gone. publish-Stores (remove_locked fs c key).0)
          ]

  pub commit-Stores : (c : PageCache) → Stores (commit fs c r key fingerprint output_dir pages now)
  unfolding commit after_convert
  commit-Stores c =
      if_cases Stores (r.used || r.committed) (λ b entry h. absurd (ground (arith, h)))
        λ o.
          if_cases Stores (length pages == 0) (λ b entry h. absurd (ground (arith, h)))
            λ n. elim (Result-cases (convert_pages fs output_dir (pos 0) pages)) [
              | inl (e, failed) ↦ rw (failed, after_convert) (λ entry h. absurd (ground (arith, h)))
              | inr ((conv, total), converted) ↦
                  rw (converted, after_convert)
                    (if_cases Stores (ltb_ℤ r.bytes total) (λ b entry h. absurd (ground (arith, h)))
                      λ fits. commit_locked-Stores conv total n converted c)
            ]

pub commit-IsStored :
    (fs : FileSystem) (c : PageCache) (r : CacheReservation) (key fingerprint : Bytes)
    (output_dir : FilePath) (pages : List ReportedPage) (now : ℕ) (entry : CacheEntry)
    → (commit fs c r key fingerprint output_dir pages now).2 ≡ ok entry
    → (d : PageCache) × IsStored d r key fingerprint now pages
        (commit fs c r key fingerprint output_dir pages now)
commit-IsStored fs c r key fingerprint output_dir pages now =
    commit-Stores fs r key fingerprint output_dir pages now c

-- The charge moves from the reservation to the cache.
pub published-IsAccounted :
    (held : ℤ) (d : PageCache) (r : CacheReservation) (e : CacheEntry)
    → pos 1 ≤ℤ e.total
    → find e.key d.entries ≡ none
    → IsAccounted (held +ℤ r.bytes) d
    → IsAccounted (held +ℤ (r.bytes -ℤ e.total)) (published d r e).0
unfolding insert entries_total
published-IsAccounted held d r e one absent v =
    let charged : ltb_ℤ (pos 0) e.total ≡ true = ground arith in
    let same = Laws.delete_absent e.key d.entries absent in
    record {
      used = rw (charged, same) (rw v.used (+ℤ_comm (entries_total d.entries) e.total));
      reserved = rw v.reserved (+ℤ_move held r.bytes (pending_total d.pending) e.total);
      budget = rw charged (shift_charge d.used_bytes d.reserved e.total d.max_bytes v.budget);
      charged = rw same (one, v.charged);
      owed = v.owed;
      unique = rw same (absent, v.unique);
    }

-- The entry of a successful commit.
pub commit-total :
    (fs : FileSystem) (output_dir : FilePath) (pages : List ReportedPage) {conv : List CachedPage}
    {total : ℤ}
    → (length pages == 0) ≡ false
    → convert_pages fs output_dir (pos 0) pages ≡ ok (conv, total)
    → (pos 1 ≤ℤ total) × (total ≡ pages_total conv)
commit-total fs output_dir pages {conv} {total} n h =
    let (all, exact, bound) = convert_pages_sound fs output_dir pages conv total h in
    (rw exact (pages_total-pos fs output_dir pages conv all n), exact)

-- A commit keeps the cache accounted for, with what the reservation still holds afterwards in place
-- of what it held before.
pub commit-IsAccounted :
    (held : ℤ) (fs : FileSystem) (c : PageCache) (r : CacheReservation) (key fingerprint : Bytes)
    (output_dir : FilePath) (pages : List ReportedPage) (now : ℕ)
    → IsAccounted (held +ℤ r.bytes) c
    → let after = commit fs c r key fingerprint output_dir pages now in
      IsAccounted (held +ℤ after.1.bytes) after.0
commit-IsAccounted held fs c r key fingerprint output_dir pages now v =
    by_answer (commit-Committed fs c r key fingerprint output_dir pages now v)
  where
    by_answer :
        {a : Commit}
        → Committed fs c r key fingerprint output_dir pages now a
        → IsAccounted (held +ℤ a.1.bytes) a.0
    by_answer (refused why s) = s.accounted (held +ℤ r.bytes) v
    by_answer (done {d} {conv} {total} s o n h fits k f stored) =
        published-IsAccounted held d r (new_entry d key fingerprint now conv total)
          (commit-total fs output_dir pages n h).0 f (s.accounted (held +ℤ r.bytes) v)
