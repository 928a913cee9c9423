-- ===== src/Examples/Lifecycle.antt =====
-- A backend that is configured and closed.
use bloem_community_crowquil.Prelude.{get_elem?, ◌≡◌, refl, true, false, [], ◌∷◌, none, some, ok}
use bloem_community_crowquil.Prelude.Int.{pos_part}
use bloem_community_crowquil.Silo.Config.{
  Config, normalize_base_url, normalize_cache_dir, check_bounds, fill_limits, limits_outside_bounds,
  normalize_config,
}
use bloem_community_crowquil.Silo.Client.{UpstreamClient}
use bloem_community_crowquil.Silo.Constants.{upstream_timeout}
use bloem_community_crowquil.Silo.Cache.System
use bloem_community_crowquil.Silo.Runtime.{
  Live, new_runtime, done_one, stop, finish_close, end_sweeper, callers,
}
use bloem_community_crowquil.Silo.Runtime
use bloem_community_crowquil.Silo.Lifecycle.{
  ConfigTexts, replacing, vacant, Backend, new_backend, new_upstream_client, validate_configuration,
  set_at, next_runtime, lock_replacing, take, skip, stop_previous, join_previous, start_next,
  publish, run, Reach, here, next,
}
use bloem_community_crowquil.Silo.Lifecycle.Orderly.{IsNormalized}
use bloem_community_crowquil.Silo.Lifecycle.Exclusive.{
  IsExclusive, backend-IsExclusive, backend-System,
}
use bloem_community_crowquil.Examples.System.{fs}
use bloem_community_crowquil.Examples.Runtime.{is_blank}
use bloem_community_crowquil.Examples.Settings.{normalized, same_path}

abbrev texts : ConfigTexts
texts = record {
  is_blank = is_blank;
  validate_base_url = some;
  absolute = same_path;
  parses = λ s. true;
  split = λ s. s ∷ [];
}

abbrev client : UpstreamClient
client = record { limit = normalized.limits.max_archive_bytes; timeout = upstream_timeout }

valid : validate_configuration texts normalized ≡ ok (replacing normalized client)
unfolding validate_configuration new_upstream_client normalize_config normalize_base_url
    normalize_cache_dir check_bounds fill_limits limits_outside_bounds
valid = refl

abbrev first : Live
first = next_runtime texts normalized

abbrev stopped : Live
stopped = record first { runtime = stop first.runtime }

abbrev swept : Live
swept = record stopped { runtime = done_one stopped.runtime; sweeping = false }

abbrev closed : Live
closed = record swept { runtime = finish_close fs swept.runtime }

-- The old runtime is joined, and its successor is not made yet.
abbrev replaced : Backend
replaced = record {
  runtimes = closed ∷ [];
  configs = normalized ∷ [];
  current = none;
  turn = vacant (replacing normalized client);
}

abbrev running : Backend
running = record new_backend { runtimes = first ∷ []; configs = normalized ∷ []; current = some 0 }

running_reached : Reach texts new_backend running
unfolding new_backend
running_reached =
    next
      (next
        (next (next (next here (lock_replacing normalized _ valid refl)) (take _ refl))
          (skip _ refl))
        (start_next normalized client refl))
      (publish 0 refl)

replaced_reached : Reach texts new_backend replaced
unfolding new_backend set_at Runtime.init new_runtime stop done_one finish_close
replaced_reached =
    next
      (next
        (next (next (next running_reached (lock_replacing normalized _ valid refl)) (take _ refl))
          (stop_previous _ 0 first refl refl))
        (run 0 stopped swept refl (end_sweeper refl refl) refl refl))
      (join_previous fs _ 0 swept refl refl refl)

backend-IsExclusive_example : IsExclusive replaced
backend-IsExclusive_example = backend-IsExclusive texts replaced replaced_reached

backend-System_example :
    (cfg : Config) × (get_elem? replaced.configs 0 ≡ some cfg)
    × IsNormalized texts cfg
    × System.Reach
        (System.init (cfg.cache_dir ∷ []) cfg.cache_size (pos_part cfg.cache_ttl))
        (callers closed)
backend-System_example = backend-System texts replaced 0 closed replaced_reached refl
