-- ===== src/Silo/Lifecycle.antt =====
-- The replacement of a runtime by another in internal/silo/backend.go: `Configure`, `getRuntime` and
-- `Close` of the backend, with the goroutines of all runtimes that were made, as a step relation.
pub mod Orderly
pub mod Steps
pub mod Exclusive
use bloem_community_crowquil.Prelude.{
  ℕ, zero, suc, ◌+◌, ◌≡◌, Bool, true, false, not, Bytes, FilePath, List, [], ◌∷◌, ◌++◌, Option,
  none, some, Result, ok, err, codes, length, get_elem?, if◌then◌else◌,
}
use bloem_community_crowquil.Prelude.Int.{ℤ, pos_part}
use bloem_community_crowquil.Silo.Requests.{ApiError, api_error, not_configured}
use bloem_community_crowquil.Silo.Config.{Config, normalize_config}
use bloem_community_crowquil.Silo.Client.{UpstreamClient}
use bloem_community_crowquil.Silo.Constants.{upstream_timeout}
use bloem_community_crowquil.Silo.Cache.State.{FileSystem}
use bloem_community_crowquil.Silo.Cache.System
use bloem_community_crowquil.Silo.Runtime.{Live, stop, finish_close}
use bloem_community_crowquil.Silo.Runtime

-- `newUpstreamClient` of internal/silo/client.go; `parses` is whether `url.Parse` accepts the text.
unfoldable pub new_upstream_client : (Bytes → Bool) → Bytes → ℤ → Option UpstreamClient
new_upstream_client parses base_url archive_limit =
    if parses base_url
    then some (record { limit = archive_limit; timeout = upstream_timeout })
    else none

-- What the holder of the lifecycle lock is for: to close the backend, or to replace its runtime by one
-- with a validated configuration.
pub data Purpose : Type 0 where
  closing : Purpose
  replacing : Config → UpstreamClient → Purpose

abbrev invalid_configuration : ApiError
invalid_configuration = api_error 422 (codes "invalid_configuration")

-- `strings.TrimSpace(s) == ""`, `validateBaseURL`, `filepath.Abs(filepath.Clean(s))` with whether it is
-- the root directory, whether `url.Parse` accepts a text, and the elements of a cleaned absolute path.
pub record ConfigTexts : Type 0 where
  pub is_blank : Bytes → Bool
  pub validate_base_url : Bytes → Option Bytes
  pub absolute : Bytes → Option (Bytes × Bool)
  pub parses : Bytes → Bool
  pub split : Bytes → FilePath

module _ (t : ConfigTexts) where
  -- The part of `Configure` before its lock.
  unfoldable pub validate_configuration : Config → Result ApiError Purpose
  validate_configuration cfg =
      elim (normalize_config t.is_blank t.validate_base_url t.absolute cfg) [
        | err e ↦ err invalid_configuration
        | ok normalized ↦
            elim (new_upstream_client t.parses normalized.base_url
              normalized.limits.max_archive_bytes) [
                | none ↦ err invalid_configuration
                | some client ↦ ok (replacing normalized client)
              ]
      ]

-- How far the holder of the lock is. `taken` has set the current runtime to nil; `waiting` is in the
-- `close` of the runtime that it took, behind the cancellation; `vacant` has joined it; `started` has
-- made its successor, with the sweeper.
pub data Turn : Type 0 where
  free : Turn
  locked : Purpose → Turn
  taken : Purpose → Option ℕ → Turn
  waiting : Purpose → ℕ → Turn
  vacant : Purpose → Turn
  started : ℕ → Turn

-- A runtime is told by its place among all that were made; its field `cfg`, which nothing writes later,
-- stands at the same place of `configs`.
pub record Backend : Type 0 where
  pub runtimes : List Live
  pub configs : List Config
  pub current : Option ℕ
  pub turn : Turn

unfoldable pub new_backend : Backend
new_backend = record { runtimes = []; configs = []; current = none; turn = free }

unfoldable pub get_runtime : Backend → Result ApiError ℕ
get_runtime b = elim b.current [ none ↦ err not_configured | some i ↦ ok i ]

unfoldable pub set_at : ℕ → Live → List Live → List Live
set_at i l [] = []
set_at zero l (x ∷ xs) = l ∷ xs
set_at (suc i) l (x ∷ xs) = x ∷ set_at i l xs

-- The runtime that `Configure` makes around a cache that was opened.
abbrev pub next_runtime : ConfigTexts → Config → Live
next_runtime t cfg =
    Runtime.init (System.init (t.split cfg.cache_dir) cfg.cache_size (pos_part cfg.cache_ttl)).cache

module _ (t : ConfigTexts) where
  pub data Step (b : Backend) : Backend → Type 0 where
    lock_closing : b.turn ≡ free → Step b (record b { turn = locked closing })
    lock_replacing :
        (cfg : Config) (p : Purpose)
        → validate_configuration t cfg ≡ ok p
        → b.turn ≡ free
        → Step b (record b { turn = locked p })
    take :
        (p : Purpose)
        → b.turn ≡ locked p
        → Step b (record b { current = none; turn = taken p b.current })
    -- There was no runtime.
    skip : (p : Purpose) → b.turn ≡ taken p none → Step b (record b { turn = vacant p })
    stop_previous :
        (p : Purpose) (i : ℕ) (l : Live)
        → b.turn ≡ taken p (some i)
        → get_elem? b.runtimes i ≡ some l
        → Step b (record b {
          runtimes = set_at i (record l { runtime = stop l.runtime }) b.runtimes;
          turn = waiting p i;
        })
    -- Behind `wg.Wait`.
    join_previous :
        (fs : FileSystem) (p : Purpose) (i : ℕ) (l : Live)
        → b.turn ≡ waiting p i
        → get_elem? b.runtimes i ≡ some l
        → l.runtime.wg ≡ 0
        → Step b (record b {
          runtimes = set_at i (record l { runtime = finish_close fs l.runtime }) b.runtimes;
          turn = vacant p;
        })
    finish_closing : b.turn ≡ vacant closing → Step b (record b { turn = free })
    -- `newPageCache` failed.
    give_up :
        (cfg : Config) (client : UpstreamClient)
        → b.turn ≡ vacant (replacing cfg client)
        → Step b (record b { turn = free })
    start_next :
        (cfg : Config) (client : UpstreamClient)
        → b.turn ≡ vacant (replacing cfg client)
        → Step b (record b {
          runtimes = b.runtimes ++ next_runtime t cfg ∷ [];
          configs = b.configs ++ cfg ∷ [];
          turn = started (length b.runtimes);
        })
    publish : (i : ℕ) → b.turn ≡ started i → Step b (record b { current = some i; turn = free })
    -- A goroutine of any runtime, or a request that has found it as the current one before. Only the
    -- holder of the lock stops and closes runtimes.
    run :
        (i : ℕ) (l l' : Live)
        → get_elem? b.runtimes i ≡ some l
        → Runtime.Step l l'
        → l'.runtime.stopping ≡ l.runtime.stopping
        → l'.runtime.closed ≡ l.runtime.closed
        → Step b (record b { runtimes = set_at i l' b.runtimes })

  pub data Reach (b : Backend) : Backend → Type 0 where
    here : Reach b b
    next : {c d : Backend} → Reach b c → Step c d → Reach b d
