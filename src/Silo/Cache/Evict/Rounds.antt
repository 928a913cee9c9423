-- ===== src/Silo/Cache/Evict/Rounds.antt =====
-- Lemmas on the outer loop of `evictUntilLocked` of internal/silo/cache.go.
use bloem_community_crowquil.Prelude.{
  ℕ, zero, suc, ◌+◌, ◌≤◌, ◌<◌, ◌≡◌, refl, ◌⊎◌, inl, inr, Bool, true, false, Bytes, Bytes-discrete,
  List, [], ◌∷◌, Option, none, some, length, arith, if_neg, Bool-cases, Option-cases, ltb,
  if◌then◌else◌,
}
use bloem_community_crowquil.Prelude.Int.{ℤ}
use bloem_community_crowquil.Silo.Cache.State.{FileSystem, CacheEntry, PageCache}
use bloem_community_crowquil.Silo.Cache.Entries.{find, update, delete, retire, HasUniqueKeys}
use bloem_community_crowquil.Silo.Cache.Invariant.{IsAccounted, Cleans, Cleans-refl, Cleans-trans}
use bloem_community_crowquil.Silo.Cache.Remove.{remove_locked}
use bloem_community_crowquil.Silo.Cache.Remove.Laws.{
  Outcome, missing, kept, dropped, remove_locked-Outcome, remove_locked-Cleans,
}
use bloem_community_crowquil.Silo.Cache.Evict.{
  is_candidate, better, oldest_from, is_over, evict_rounds, evict_until_locked,
}

-- The entries that could still be evicted.
pub candidates : List CacheEntry → ℕ
candidates [] = 0
candidates (e ∷ es) = (if is_candidate e then 1 else 0) + candidates es

candidates-le : (es : List CacheEntry) → candidates es ≤ length es
unfolding candidates
candidates-le [] = omega arith
candidates-le (e ∷ es) = ground (arith, candidates-le es)

-- One step of the inner loop keeps what it has, or takes a candidate.
better_cases :
    (from : Option CacheEntry) (x : CacheEntry) {e : CacheEntry}
    → (if is_candidate x then better from x else from) ≡ some e
    → (from ≡ some e) ⊎ ((is_candidate x ≡ true) × (x ≡ e))
unfolding better
better_cases none x {e} h = elim (Bool-cases (is_candidate x)) [
  | inl c ↦ inr (c, ground arith)
  | inr c ↦ inl (ground arith)
]
better_cases (some o) x {e} h = elim (Bool-cases (is_candidate x)) [
  | inl c ↦ elim (Bool-cases (ltb x.last_used o.last_used)) [
    | inl l ↦ inr (c, ground arith)
    | inr l ↦ inl (ground arith)
  ]
  | inr c ↦ inl (ground arith)
]

better-none :
    (from : Option CacheEntry) (x : CacheEntry)
    → (if is_candidate x then better from x else from) ≡ none
    → (from ≡ none) × (is_candidate x ≡ false)
unfolding better
better-none none x h = ground arith
better-none (some o) x h = ground arith

find_behind :
    (x e : CacheEntry) (es : List CacheEntry)
    → find x.key es ≡ none
    → find e.key es ≡ some e
    → find e.key (x ∷ es) ≡ some e
unfolding find
find_behind x e es h f = elim (Bytes-discrete x.key e.key) [
  | yes p ↦ absurd (let f' : find x.key es ≡ some e = rw p f in cc)
  | no p ↦ rw (if_neg _ p) f
]

find_here : (x e : CacheEntry) (es : List CacheEntry) → x ≡ e → find e.key (x ∷ es) ≡ some e
unfolding find
find_here x e es h = ground arith

-- What the inner loop returns: `from` as it was, or a candidate of the list.
oldest_from-mem :
    (from : Option CacheEntry) (es : List CacheEntry) {e : CacheEntry}
    → HasUniqueKeys es
    → oldest_from from es ≡ some e
    → (from ≡ some e) ⊎ ((is_candidate e ≡ true) × (find e.key es ≡ some e))
unfolding oldest_from
oldest_from-mem from [] u h = inl h
oldest_from-mem from (x ∷ es) {e} u h =
    elim (oldest_from-mem (if is_candidate x then better from x else from) es {e = e} u.1 h) [
      | inl p ↦ elim (better_cases from x {e = e} p) [
        | inl q ↦ inl q
        | inr (c, q) ↦ inr (rw q at c, find_here x e es q)
      ]
      | inr (c, q) ↦ inr (c, find_behind x e es u.0 q)
    ]

oldest_from-none :
    (from : Option CacheEntry) (es : List CacheEntry)
    → oldest_from from es ≡ none
    → (from ≡ none) × (candidates es ≡ 0)
unfolding oldest_from candidates
oldest_from-none from [] h = (h, refl)
oldest_from-none from (x ∷ es) h =
    let (p, rest) = oldest_from-none (if is_candidate x then better from x else from) es h in
    let (q, c) = better-none from x p in (q, rw (c, rest) refl)

candidates-retire :
    (key : Bytes) (es : List CacheEntry) {e : CacheEntry}
    → find key es ≡ some e
    → is_candidate e ≡ true
    → candidates (update key retire es) + 1 ≡ candidates es
unfolding candidates find update retire is_candidate
candidates-retire key [] h a = cc
candidates-retire key (x ∷ es) {e} h a = ground (arith, candidates-retire key es {e = e})

candidates-delete :
    (key : Bytes) (es : List CacheEntry) → candidates (delete key es) ≤ candidates es
unfolding candidates delete
candidates-delete key [] = omega arith
candidates-delete key (x ∷ es) = ground (arith, candidates-delete key es)

-- A round leaves fewer candidates.
round-candidates :
    (fs : FileSystem) (c : PageCache) (e : CacheEntry)
    → find e.key c.entries ≡ some e
    → is_candidate e ≡ true
    → candidates (remove_locked fs c e.key).0.entries < candidates c.entries
round-candidates fs c e found cand = by_outcome (remove_locked-Outcome fs c e.key)
  where
    less : candidates (update e.key retire c.entries) + 1 ≡ candidates c.entries
    less = candidates-retire e.key c.entries found cand

    by_outcome :
        {r : PageCache × Bool}
        → Outcome fs c e.key r
        → candidates r.0.entries < candidates c.entries
    by_outcome (missing h) = cc
    by_outcome (kept h) = omega (arith, less)
    by_outcome (dropped h idle gone) =
        omega (arith, less, candidates-delete e.key (update e.key retire c.entries))

-- The loop has stopped: the incoming bytes fit, or nothing is left to evict.
abbrev pub HasRoom : ℤ → PageCache → Type 0
HasRoom incoming c = (is_over incoming c ≡ false) ⊎ (candidates c.entries ≡ 0)

-- The three ways in which a round goes on.
round_cases {ℓ} :
    (P : PageCache → Type ℓ) (rounds : ℕ) (fs : FileSystem) (incoming : ℤ) (c : PageCache)
    → (is_over incoming c ≡ false → P c)
    → (oldest_from none c.entries ≡ none → P c)
    → ((e : CacheEntry)
        → oldest_from none c.entries ≡ some e
        → P (evict_rounds rounds fs incoming (remove_locked fs c e.key).0))
    → P (evict_rounds (suc rounds) fs incoming c)
unfolding evict_rounds
round_cases P rounds fs incoming c fits empty more = elim (Bool-cases (is_over incoming c)) [
  | inr h ↦ rw h (fits h)
  | inl h ↦ rw h (elim (Option-cases (oldest_from none c.entries)) [
    | inl o ↦ rw o (empty o)
    | inr (e, o) ↦ rw o (more e o)
  ])
]

candidate_found :
    (c : PageCache) (e : CacheEntry)
    → HasUniqueKeys c.entries
    → oldest_from none c.entries ≡ some e
    → (is_candidate e ≡ true) × (find e.key c.entries ≡ some e)
candidate_found c e u h = elim (oldest_from-mem none c.entries u h) [ inl p ↦ cc | inr q ↦ q ]

pub evict_rounds-Cleans :
    {held : ℤ} (rounds : ℕ) (fs : FileSystem) (incoming : ℤ) (c : PageCache)
    → IsAccounted held c
    → Cleans c (evict_rounds rounds fs incoming c)
evict_rounds-Cleans zero fs incoming c v = unfold evict_rounds in Cleans-refl c
evict_rounds-Cleans {held} (suc rounds) fs incoming c v =
    round_cases (Cleans c) rounds fs incoming c (λ _. Cleans-refl c) (λ _. Cleans-refl c)
      λ e _.
        let step = remove_locked-Cleans fs c e.key v.unique in
        Cleans-trans step (
          evict_rounds-Cleans rounds fs incoming (remove_locked fs c e.key).0
            (step.accounted held v))

evict_rounds-HasRoom :
    {held : ℤ} (rounds : ℕ) (fs : FileSystem) (incoming : ℤ) (c : PageCache)
    → IsAccounted held c
    → candidates c.entries ≤ rounds
    → HasRoom incoming (evict_rounds rounds fs incoming c)
evict_rounds-HasRoom zero fs incoming c v h = unfold evict_rounds in inr (omega arith)
evict_rounds-HasRoom {held} (suc rounds) fs incoming c v h =
    round_cases (HasRoom incoming) rounds fs incoming c inl
      (λ none_left. inr (oldest_from-none none c.entries none_left).1)
      λ e o.
        let (cand, found) = candidate_found c e v.unique o in
        evict_rounds-HasRoom rounds fs incoming (remove_locked fs c e.key).0
          ((remove_locked-Cleans fs c e.key v.unique).accounted held v)
          (omega (arith, round-candidates fs c e found cand))

pub evict_until_locked-Cleans :
    {held : ℤ} (fs : FileSystem) (incoming : ℤ) (c : PageCache)
    → IsAccounted held c
    → Cleans c (evict_until_locked fs incoming c)
unfolding evict_until_locked
evict_until_locked-Cleans fs incoming c v = evict_rounds-Cleans (length c.entries) fs incoming c v

-- On a cache that is accounted for, the eviction loop, run for as many rounds as there are entries,
-- has come to its end: the incoming bytes fit, or no entry is left that is idle and not retired.
pub evict_until_locked-HasRoom :
    {held : ℤ} (fs : FileSystem) (incoming : ℤ) (c : PageCache)
    → IsAccounted held c
    → HasRoom incoming (evict_until_locked fs incoming c)
unfolding evict_until_locked
evict_until_locked-HasRoom fs incoming c v =
    evict_rounds-HasRoom (length c.entries) fs incoming c v (candidates-le c.entries)
