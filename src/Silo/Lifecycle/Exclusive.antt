-- ===== src/Silo/Lifecycle/Exclusive.antt =====
-- The runtimes of internal/silo/backend.go beside each other.
use bloem_community_crowquil.Prelude.{
  ℕ, ◌+◌, ◌≡◌, ◌≢◌, refl, sym, ap, ◌∙◌, Bool, true, false, List, [], ◌∷◌, Option, none, some, ok,
  length, get_elem?, arith,
}
use bloem_community_crowquil.Prelude.Int.{pos_part}
use bloem_community_crowquil.Silo.Config.{Config}
use bloem_community_crowquil.Silo.Cache.System
use bloem_community_crowquil.Silo.Runtime.{Runtime, Live, acquire_request, callers}
use bloem_community_crowquil.Silo.Runtime.Counts.{AreCounted, one_if, runtime_counted}
use bloem_community_crowquil.Silo.Runtime.Refines.{runtime-System}
use bloem_community_crowquil.Silo.Lifecycle.{
  ConfigTexts, Purpose, Turn, free, locked, taken, waiting, vacant, started, Backend, new_backend,
  get_runtime, Reach,
}
use bloem_community_crowquil.Silo.Lifecycle.Orderly.{holder, accepting, IsShown, IsNormalized, Fits}
use bloem_community_crowquil.Silo.Lifecycle.Steps.{Reach-IsOrderly}

-- A runtime whose cache is closed, and which none of its goroutines will touch again.
pub record IsDrained (l : Live) : Type 0 where
  pub closed : l.runtime.cache.closed ≡ true
  pub stopping : l.runtime.stopping ≡ true
  pub requests : l.requests ≡ []
  pub running : l.running ≡ []
  pub sweeping : l.sweeping ≡ false

pub record IsExclusive (b : Backend) : Type 0 where
  pub others :
      (i j : ℕ) (l m : Live)
      → get_elem? b.runtimes i ≡ some l
      → get_elem? b.runtimes j ≡ some m
      → i ≢ j
      → l.runtime.cache.closed ≡ false
      → IsDrained m
  pub vacated :
      (p : Purpose) (i : ℕ) (l : Live)
      → b.turn ≡ vacant p
      → get_elem? b.runtimes i ≡ some l
      → IsDrained l
  pub admitted :
      (i : ℕ) (l : Live)
      → get_runtime b ≡ ok i
      → get_elem? b.runtimes i ≡ some l
      → (r : Runtime) × (acquire_request (some l.runtime) ≡ ok r)

empty {ℓ} : {A : Type ℓ} (xs : List A) → length xs ≡ 0 → xs ≡ []
empty [] h = refl
empty (x ∷ xs) h = absurd (omega (arith, h))

none_swept : (b : Bool) → one_if b ≡ 0 → b ≡ false
none_swept true h = absurd (omega (arith, h))
none_swept false h = refl

counted-IsDrained : (l : Live) → AreCounted l → l.runtime.closed ≡ true → IsDrained l
counted-IsDrained l v h =
    let (stopping, none_left) = v.drained h in
    record {
      closed = v.shut ∙ h;
      stopping = stopping;
      requests = empty l.requests (omega (arith, v.group, none_left));
      running = empty l.running (omega (arith, v.group, none_left));
      sweeping = none_swept l.sweeping (omega (arith, v.group, none_left));
    }

-- The runtime that is shown accepts requests.
accepting_shown :
    (turn : Turn) (current : Option ℕ) (i : ℕ)
    → IsShown turn current
    → current ≡ some i
    → accepting turn current ≡ some i
accepting_shown free current i shown h = h
accepting_shown (locked p) current i shown h = h
accepting_shown (taken p previous) current i shown h = cc
accepting_shown (waiting p j) current i shown h = cc
accepting_shown (vacant p) current i shown h = cc
accepting_shown (started j) current i shown h = cc

get_runtime-current : (b : Backend) (i : ℕ) → get_runtime b ≡ ok i → b.current ≡ some i
unfolding get_runtime
get_runtime-current b i h = ground (arith, h)

acquire_request-open :
    (r : Runtime) → r.stopping ≡ false → (s : Runtime) × (acquire_request (some r) ≡ ok s)
unfolding acquire_request
acquire_request-open r h = (record r { wg = r.wg + 1 }, ground (arith, h))

module _ (t : ConfigTexts) where
  Fits-AreCounted :
      {configs : List Config} {turn : Turn} {current : Option ℕ} {i : ℕ} {l : Live}
      → Fits t configs turn current i l
      → AreCounted l
  unfolding System.init
  Fits-AreCounted {l} f =
      runtime_counted
        (System.init (t.split f.reached.0.cache_dir) f.reached.0.cache_size
          (pos_part f.reached.0.cache_ttl)).cache
        l refl f.reached.3

  closed-IsDrained :
      {configs : List Config} {turn : Turn} {current : Option ℕ} {i : ℕ} {l : Live}
      → Fits t configs turn current i l
      → l.runtime.closed ≡ true
      → IsDrained l
  closed-IsDrained {l} f h = counted-IsDrained l (Fits-AreCounted f) h

  -- In every state that a backend can reach by configuring and closing, with the goroutines of all
  -- its runtimes interleaved in any order: beside a runtime whose cache is open every other one is
  -- drained, with its cache closed and no request, job or sweeper left; all are drained where the
  -- cache of a successor is about to be opened; and the current runtime admits requests.
  pub backend-IsExclusive : (b : Backend) → Reach t new_backend b → IsExclusive b
  backend-IsExclusive b reached =
      let v = Reach-IsOrderly t b reached in
      record {
        others = λ i j l m at at' apart opened.
            let f = v.fits i l at in
            let g = v.fits j m at' in
            closed-IsDrained g (
              g.closed
                (λ q. let closed = (Fits-AreCounted f).shut ∙ f.closed (λ q'. apart cc) in cc));
        vacated = λ p i l e at.
            let f = v.fits i l at in
            closed-IsDrained f (
              f.closed
                (λ q. let q' : none ≡ some i = ap (λ x. holder x b.current) (sym e) ∙ q in cc));
        admitted = λ i l found at.
            let f = v.fits i l at in
            acquire_request-open l.runtime (
              f.active
                (accepting_shown b.turn b.current i v.shown (get_runtime-current b i found)));
      }

  -- Every runtime that a backend makes, in every state that the backend can reach, uses its cache
  -- in an order of calls that the cache's callers may make, from an empty cache of the runtime's
  -- own configuration, which the backend's normalization made of one that Configure was given.
  pub backend-System :
      (b : Backend) (i : ℕ) (l : Live)
      → Reach t new_backend b
      → get_elem? b.runtimes i ≡ some l
      → (cfg : Config) × (get_elem? b.configs i ≡ some cfg)
        × IsNormalized t cfg
        × System.Reach
            (System.init (t.split cfg.cache_dir) cfg.cache_size (pos_part cfg.cache_ttl))
            (callers l)
  backend-System b i l reached at =
      let (cfg, own, normalized, run) = ((Reach-IsOrderly t b reached).fits i l at).reached in
      (
        cfg,
        own,
        normalized,
        runtime-System (t.split cfg.cache_dir) cfg.cache_size (pos_part cfg.cache_ttl) l run,
      )
