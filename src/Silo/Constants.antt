-- ===== src/Silo/Constants.antt =====
-- The constants of internal/silo/config.go, in bytes and in nanoseconds.
use bloem_community_crowquil.Prelude.{ℕ, ◌*◌, ◌^◌}

abbrev pub chunk_bytes : ℕ
chunk_bytes = 2 ^ 20

abbrev pub default_cache_bytes : ℕ
default_cache_bytes = 2 * 2 ^ 30

abbrev pub max_cache_bytes : ℕ
max_cache_bytes = 4 * 2 ^ 30

abbrev pub max_archive_bytes : ℕ
max_archive_bytes = 512 * 2 ^ 20

abbrev pub max_page_bytes : ℕ
max_page_bytes = 32 * 2 ^ 20

abbrev pub max_total_bytes : ℕ
max_total_bytes = 2 ^ 30

abbrev pub max_entries : ℕ
max_entries = 2048

abbrev pub max_dictionary_bytes : ℕ
max_dictionary_bytes = 64 * 2 ^ 20

-- 10 minutes
abbrev pub cache_fallback_ttl : ℕ
cache_fallback_ttl = 600 * 10 ^ 9

-- 30 minutes
abbrev pub cache_idle_ttl : ℕ
cache_idle_ttl = 1800 * 10 ^ 9

-- 2 seconds
abbrev pub upstream_timeout : ℕ
upstream_timeout = 2 * 10 ^ 9
