-- ===== src/Silo/Lifecycle/Orderly.antt =====
-- The invariant of the lifecycle of runtimes in internal/silo/backend.go.
use mathlib.Core.Path.{subst}
use bloem_community_crowquil.Prelude.{
  ℕ, zero, suc, ◌<◌, ◌≡◌, ◌≢◌, refl, sym, ap, ◌∙◌, ◌⊎◌, inl, inr, true, false, List, [], ◌∷◌, ◌++◌,
  Option, none, some, ok, length, get_elem?, arith,
}
use bloem_community_crowquil.Silo.Config.{Config, normalize_config}
use bloem_community_crowquil.Silo.Runtime.{
  Live, stop, finish_close, new_runtime, stop_runtime, close,
}
use bloem_community_crowquil.Silo.Runtime
use bloem_community_crowquil.Silo.Lifecycle.{
  ConfigTexts, Purpose, closing, replacing, Turn, free, locked, taken, waiting, vacant, started,
  Backend, new_backend, set_at, next_runtime,
}

suc_apart : (i j : ℕ) → i ≢ j → suc i ≢ suc j
suc_apart i j h e = h (omega (arith, e))

-- What stands at a place of an updated list.
get_elem?-set_at :
    (i j : ℕ) (l m : Live) (ls : List Live)
    → get_elem? (set_at i l ls) j ≡ some m
    → ((i ≡ j) × (m ≡ l)) ⊎ ((i ≢ j) × (get_elem? ls j ≡ some m))
unfolding set_at
get_elem?-set_at i j l m [] h = cc
get_elem?-set_at zero zero l m (x ∷ ls) h = inl (refl, cc)
get_elem?-set_at zero (suc j) l m (x ∷ ls) h = inr (λ p. omega (arith, p), h)
get_elem?-set_at (suc i) zero l m (x ∷ ls) h = inr (λ p. omega (arith, p), h)
get_elem?-set_at (suc i) (suc j) l m (x ∷ ls) h = elim (get_elem?-set_at i j l m ls h) [
  | inl (same, is_new) ↦ inl (ap suc same, is_new)
  | inr (apart, old) ↦ inr (suc_apart i j apart, old)
]

-- What stands at a place of a list with a new last element.
pub get_elem?-append :
    (j : ℕ) (l m : Live) (ls : List Live)
    → get_elem? (ls ++ l ∷ []) j ≡ some m
    → ((j ≡ length ls) × (m ≡ l)) ⊎ ((j < length ls) × (get_elem? ls j ≡ some m))
get_elem?-append zero l m [] h = inl (refl, cc)
get_elem?-append (suc j) l m [] h = cc
get_elem?-append zero l m (x ∷ ls) h = inr (omega arith, h)
get_elem?-append (suc j) l m (x ∷ ls) h = elim (get_elem?-append j l m ls h) [
  | inl (last, is_new) ↦ inl (ap suc last, is_new)
  | inr (before, old) ↦ inr (omega (arith, before), old)
]

-- The runtime that need not be closed yet, given the turn and the current one.
abbrev pub holder : Turn → Option ℕ → Option ℕ
holder free current = current
holder (locked p) current = current
holder (taken p previous) current = previous
holder (waiting p i) current = some i
holder (vacant p) current = none
holder (started i) current = some i

-- The runtime that is not being stopped.
abbrev pub accepting : Turn → Option ℕ → Option ℕ
accepting (waiting p i) current = none
accepting turn current = holder turn current

-- The runtime whose end is waited for.
abbrev pub stopped_one : Turn → Option ℕ
stopped_one (waiting p i) = some i
stopped_one _ = none

-- A runtime is shown as the current one only while none is replaced.
abbrev pub IsShown : Turn → Option ℕ → Type 0
IsShown free current = Unit
IsShown (locked p) current = Unit
IsShown _ current = current ≡ none

length-set_at : (i : ℕ) (l : Live) (ls : List Live) → length (set_at i l ls) ≡ length ls
unfolding set_at
length-set_at i l [] = refl
length-set_at zero l (x ∷ ls) = omega arith
length-set_at (suc i) l (x ∷ ls) = omega (arith, length-set_at i l ls)

module _ (t : ConfigTexts) where
  -- A configuration that a call of `Configure` made of the one that it was given.
  abbrev pub IsNormalized : Config → Type 0
  IsNormalized cfg =
      (given : Config) × (normalize_config t.is_blank t.validate_base_url t.absolute given ≡ ok cfg)

  abbrev pub IsAccepted : Purpose → Type 0
  IsAccepted closing = Unit
  IsAccepted (replacing cfg client) = IsNormalized cfg

  -- The holder of the lock is there for an accepted configuration.
  abbrev pub IsGuarded : Turn → Type 0
  IsGuarded (locked p) = IsAccepted p
  IsGuarded (taken p previous) = IsAccepted p
  IsGuarded (waiting p i) = IsAccepted p
  IsGuarded (vacant p) = IsAccepted p
  IsGuarded _ = Unit

  -- What holds of the runtime at a place.
  pub record Fits (configs : List Config) (turn : Turn) (current : Option ℕ) (i : ℕ) (l : Live)
      : Type 0 where
    pub closed : holder turn current ≢ some i → l.runtime.closed ≡ true
    pub active : accepting turn current ≡ some i → l.runtime.stopping ≡ false
    pub stopping : stopped_one turn ≡ some i → l.runtime.stopping ≡ true
    pub reached :
        (cfg : Config) × (get_elem? configs i ≡ some cfg)
        × IsNormalized cfg
        × Runtime.Reach (next_runtime t cfg) l

  pub record IsOrderly (b : Backend) : Type 0 where
    pub fits :
        (i : ℕ) (l : Live) → get_elem? b.runtimes i ≡ some l → Fits b.configs b.turn b.current i l
    pub paired : length b.configs ≡ length b.runtimes
    pub guarded : IsGuarded b.turn
    pub shown : IsShown b.turn b.current

  pub new_backend-IsOrderly : IsOrderly new_backend
  unfolding new_backend
  new_backend-IsOrderly = record { fits = λ i l g. cc; paired = refl; guarded = tt; shown = tt }

  -- A turn changes hands with the same runtimes.
  pub turn-IsOrderly :
      {b : Backend} (turn : Turn) (current : Option ℕ)
      → IsOrderly b
      → holder turn current ≡ holder b.turn b.current
      → accepting turn current ≡ accepting b.turn b.current
      → stopped_one turn ≡ none
      → IsGuarded turn
      → IsShown turn current
      → IsOrderly (record b { turn = turn; current = current })
  turn-IsOrderly {b} turn current v same same' quiet guarded shown = record {
    fits = λ i l g.
        let f = v.fits i l g in
        record {
          closed = λ h. f.closed (λ p. h (same ∙ p));
          active = λ h. f.active (sym same' ∙ h);
          stopping = λ h. cc;
          reached = f.reached;
        };
    paired = v.paired;
    guarded = guarded;
    shown = shown;
  }

  -- A runtime gives way to its successor at the same place.
  pub place-IsOrderly :
      {b : Backend} (i : ℕ) (l : Live) (turn : Turn)
      → IsOrderly b
      → Fits b.configs turn b.current i l
      → ((j : ℕ) (m : Live)
          → i ≢ j
          → Fits b.configs b.turn b.current j m
          → Fits b.configs turn b.current j m)
      → IsGuarded turn
      → IsShown turn b.current
      → IsOrderly (record b { runtimes = set_at i l b.runtimes; turn = turn })
  place-IsOrderly {b} i l turn v fit keeps guarded shown = record {
    fits = λ j m g. elim (get_elem?-set_at i j l m b.runtimes g) [
      | inl (same, is_new) ↦
          subst (λ k. Fits b.configs turn b.current k m) same
            (subst (Fits b.configs turn b.current i) (sym is_new) fit)
      | inr (apart, old) ↦ keeps j m apart (v.fits j m old)
    ];
    paired = omega (arith, v.paired, length-set_at i l b.runtimes);
    guarded = guarded;
    shown = shown;
  }
