-- ===== src/Archive/Limits.antt =====
-- `Limits`, `DefaultLimits` and `normalizeLimits` of internal/archive/archive.go.
use bloem_community_crowquil.Prelude.{
  ◌*◌, ◌^◌, ◌≡◌, ◌↔◌, ap, ◌∙◌, ◌||◌, Result, ok, err, arith, if◌then◌else◌,
}
use bloem_community_crowquil.Prelude.Int.{ℤ, pos, ◌≤ℤ◌, ltb_ℤ, eqb_ℤ}

pub record Limits : Type 0 where
  pub max_entries : ℤ
  pub max_page_bytes : ℤ
  pub max_total_bytes : ℤ
  pub max_archive_bytes : ℤ
  pub max_dictionary_bytes : ℤ

abbrev pub max_rar_dictionary_bytes : ℤ
max_rar_dictionary_bytes = pos (64 * 2 ^ 30)

abbrev pub default_limits : Limits
default_limits = record {
  max_entries = pos 2048;
  max_page_bytes = pos (32 * 2 ^ 20);
  max_total_bytes = pos (2 ^ 30);
  max_archive_bytes = pos (512 * 2 ^ 20);
  max_dictionary_bytes = pos (64 * 2 ^ 20);
}

-- Both are `ErrInvalidLimits`, with different texts.
pub data LimitError : Type 0 where
  not_positive dictionary_exceeds_maximum : LimitError

-- A zero field takes its default.
abbrev pub or_default : ℤ → ℤ → ℤ
or_default x d = if eqb_ℤ x (pos 0) then d else x

unfoldable pub with_defaults : Limits → Limits
with_defaults l = record {
  max_entries = or_default l.max_entries default_limits.max_entries;
  max_page_bytes = or_default l.max_page_bytes default_limits.max_page_bytes;
  max_total_bytes = or_default l.max_total_bytes default_limits.max_total_bytes;
  max_archive_bytes = or_default l.max_archive_bytes default_limits.max_archive_bytes;
  max_dictionary_bytes = or_default l.max_dictionary_bytes default_limits.max_dictionary_bytes;
}

unfoldable pub check_limits : Limits → Result LimitError Limits
check_limits l =
    if ltb_ℤ l.max_entries (pos 1)
      || ltb_ℤ l.max_page_bytes (pos 1)
      || ltb_ℤ l.max_total_bytes (pos 1)
      || ltb_ℤ l.max_archive_bytes (pos 1)
      || ltb_ℤ l.max_dictionary_bytes (pos 1)
    then err not_positive
    else if ltb_ℤ max_rar_dictionary_bytes l.max_dictionary_bytes
    then err dictionary_exceeds_maximum
    else ok l

unfoldable pub normalize_limits : Limits → Result LimitError Limits
normalize_limits l = check_limits (with_defaults l)

-- Limits under which an extraction can run.
pub record AreUsable (l : Limits) : Type 0 where
  pub entries : pos 1 ≤ℤ l.max_entries
  pub page : pos 1 ≤ℤ l.max_page_bytes
  pub total : pos 1 ≤ℤ l.max_total_bytes
  pub archive : pos 1 ≤ℤ l.max_archive_bytes
  pub dictionary : pos 1 ≤ℤ l.max_dictionary_bytes
  pub dictionary_bound : l.max_dictionary_bytes ≤ℤ max_rar_dictionary_bytes

check_limits-AreUsable : (l m : Limits) → check_limits l ≡ ok m → AreUsable m × (l ≡ m)
unfolding check_limits
check_limits-AreUsable l m h = ground arith

check_limits_ok : (l : Limits) → AreUsable l → check_limits l ≡ ok l
unfolding check_limits
check_limits_ok l u = ground arith

with_defaults_usable : (l : Limits) → AreUsable l → with_defaults l ≡ l
unfolding with_defaults
with_defaults_usable l u = ground arith

-- Normalization succeeds exactly where the limits with their defaults are all positive and the
-- dictionary is within its maximum, and then returns those.
pub normalize_limits_iff :
    (l m : Limits) → (normalize_limits l ≡ ok m) ↔ ((with_defaults l ≡ m) × AreUsable m)
unfolding normalize_limits
normalize_limits_iff l m = (
  λ h. let (u, same) = check_limits-AreUsable (with_defaults l) m h in (same, u),
  λ h. ap check_limits h.0 ∙ check_limits_ok m h.1,
)

-- Limits that a normalization returned are returned unchanged by another one.
pub normalize_limits_twice : (l m : Limits) → normalize_limits l ≡ ok m → normalize_limits m ≡ ok m
normalize_limits_twice l m h =
    let (same, u) = (normalize_limits_iff l m).0 h in
    (normalize_limits_iff m m).1 (with_defaults_usable m u, u)
