-- ===== src/Silo/Keys.antt =====
-- Cache keys: `normalizeKey` of internal/silo/backend.go.
use bloem_community_crowquil.Prelude.{
  ℕ, ◌+◌, Bool, true, ◌&&◌, ◌||◌, not, Bytes, [], ◌∷◌, map, length, leb, ◌==◌, if◌then◌else◌,
}

-- `sha256.Size`
abbrev pub sha256_size : ℕ
sha256_size = 32

is_lower_hex : ℕ → Bool
is_lower_hex c = (leb b'0' c && leb c b'9') || (leb b'a' c && leb c b'f')

is_upper_hex : ℕ → Bool
is_upper_hex c = leb b'A' c && leb c b'F'

-- `hex.DecodeString` succeeds on an even number of hexadecimal digits.
unfoldable pub all_hex : Bytes → Bool
unfolding is_lower_hex is_upper_hex
all_hex [] = true
all_hex (c ∷ s) = (is_lower_hex c || is_upper_hex c) && all_hex s

-- `strings.ToLower`, on ASCII letters.
abbrev pub lower : ℕ → ℕ
lower c = if leb b'A' c && leb c b'Z' then c + 32 else c

-- The empty string stands for an invalid key.
unfoldable pub normalize_key : Bytes → Bytes
unfolding all_hex
normalize_key value =
    if not (length value == 64) then [] else if not (all_hex value) then [] else map lower value
