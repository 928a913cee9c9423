-- ===== src/Silo/Cache/Evict/Oldest.antt =====
-- Lemmas on the inner loop of `evictUntilLocked` of internal/silo/cache.go.
use bloem_community_crowquil.Prelude.{
  ◌≤◌, ◌≡◌, true, Bytes, Bytes-discrete, List, [], ◌∷◌, Option, none, some, inl, inr, arith, ap,
  Bool-cases, ltb, if◌then◌else◌,
}
use bloem_community_crowquil.Silo.Cache.State.{CacheEntry}
use bloem_community_crowquil.Silo.Cache.Entries.{find}
use bloem_community_crowquil.Silo.Cache.Evict.{is_candidate, better, oldest_from}

-- The choice after one more entry, which is no younger than the choice before it.
better_le_from :
    (from : Option CacheEntry) (x : CacheEntry) {o : CacheEntry}
    → from ≡ some o
    → (p : CacheEntry) × ((if is_candidate x then better from x else from) ≡ some p)
      × (p.last_used ≤ o.last_used)
unfolding better
better_le_from none x h = cc
better_le_from (some a) x {o} h = elim (Bool-cases (is_candidate x)) [
  | inr c ↦ (a, ground arith, ground arith)
  | inl c ↦ elim (Bool-cases (ltb x.last_used a.last_used)) [
    | inl l ↦ (x, ground arith, ground arith)
    | inr l ↦ (a, ground arith, ground arith)
  ]
]

better_le_candidate :
    (from : Option CacheEntry) (x : CacheEntry)
    → is_candidate x ≡ true
    → (p : CacheEntry) × ((if is_candidate x then better from x else from) ≡ some p)
      × (p.last_used ≤ x.last_used)
unfolding better
better_le_candidate none x c = (x, ground arith, ground arith)
better_le_candidate (some a) x c = elim (Bool-cases (ltb x.last_used a.last_used)) [
  | inl l ↦ (x, ground arith, ground arith)
  | inr l ↦ (a, ground arith, ground arith)
]

oldest_le :
    (from : Option CacheEntry) (es : List CacheEntry) (e : CacheEntry)
    → oldest_from from es ≡ some e
    → ((o : CacheEntry) → from ≡ some o → e.last_used ≤ o.last_used)
      × ((k : Bytes) (x : CacheEntry)
          → find k es ≡ some x
          → is_candidate x ≡ true
          → e.last_used ≤ x.last_used)
unfolding oldest_from find
oldest_le from [] e h = (λ o p. ground arith, λ k x f c. cc)
oldest_le from (y ∷ es) e h =
    let ih = oldest_le (if is_candidate y then better from y else from) es e h in
    (
      λ o p. let (q, taken, le) = better_le_from from y {o = o} p in omega (arith, ih.0 q taken),
      λ k x f c. elim (Bytes-discrete y.key k) [
        | yes p ↦
            let same : y ≡ x = ground arith in
            let cand : is_candidate y ≡ true = rw same c in
            let (q, taken, le) = better_le_candidate from y cand in
            omega (arith, ih.0 q taken, le, ap (λ (z : CacheEntry). z.last_used) same)
        | no p ↦ ih.1 k x (ground arith) c
      ],
    )

-- The entry that the inner loop of the eviction chooses was used no later than any entry that is
-- idle, not retired, and found under its key.
pub oldest_from-le :
    (es : List CacheEntry) (e : CacheEntry)
    → oldest_from none es ≡ some e
    → (k : Bytes) (x : CacheEntry) → find k es ≡ some x
    → is_candidate x ≡ true
    → e.last_used ≤ x.last_used
oldest_from-le es e h = (oldest_le none es e h).1
