-- ===== src/Silo/Jobs/Fingerprint.antt =====
-- Lemmas on `fingerprintFor` of internal/silo/backend.go: what a fingerprint tells apart.
use mathlib.Core.Path.{subst}
use bloem_community_crowquil.Prelude.{
  ◌≡◌, ◌≢◌, refl, sym, inl, inr, Bool, Bytes, [], ◌∷◌, ◌++◌, ok, arith, All, codes, bytes_eq,
  bytes_eq_sound, Bool-cases,
}
use bloem_community_crowquil.Prelude.Strconv.{format_int}
use bloem_community_crowquil.Prelude.Strconv.Printed.{format_int-IsText, format_int-injective}
use bloem_community_crowquil.Silo.Requests.{Request, validate_request}
use bloem_community_crowquil.Silo.Requests.Paths.{IsPathChar, validate_request-IsSafe}
use bloem_community_crowquil.Silo.Jobs.{UpstreamFile, join_nul, fingerprint_for}

-- Without the byte zero.
abbrev pub IsText : Bytes → Type 0
IsText = All (λ c. c ≢ 0)

path_chars-IsText : (s : Bytes) → All IsPathChar s → IsText s
path_chars-IsText [] h = tt
path_chars-IsText (c ∷ s) h =
    let printable = h.0.0 in (λ p. omega (arith, printable, p), path_chars-IsText s h.1)

split-append : (a b x y : Bytes) → IsText a → IsText b → a ++ 0 ∷ x ≡ b ++ 0 ∷ y → (a ≡ b) × (x ≡ y)
split-append [] [] x y ta tb h = (refl, cc)
split-append [] (d ∷ b) x y ta tb h = absurd (tb.0 cc)
split-append (c ∷ a) [] x y ta tb h = absurd (ta.0 cc)
split-append (c ∷ a) (d ∷ b) x y ta tb h =
    let rest = split-append a b x y ta.1 tb.1 cc in (cc, rest.1)

validate_request-version :
    (is_blank : Bytes → Bool) (req : Request) (require_cache_key : Bool)
    → validate_request is_blank req require_cache_key ≡ ok tt
    → IsText req.api_version
unfolding validate_request
validate_request-version is_blank req require_cache_key valid =
    elim (Bool-cases (bytes_eq req.api_version (codes "v1"))) [
      | inl first ↦
          subst IsText (sym (bytes_eq_sound req.api_version (codes "v1") first))
            (λ p. omega (arith, p), (λ p. omega (arith, p), tt))
      | inr other ↦ elim (Bool-cases (bytes_eq req.api_version (codes "v2"))) [
        | inl second ↦
            subst IsText (sym (bytes_eq_sound req.api_version (codes "v2") second))
              (λ p. omega (arith, p), (λ p. omega (arith, p), tt))
        | inr neither ↦ absurd (ground (arith, other, neither, valid))
      ]
    ]

fingerprint_for-fields :
    (req req' : Request) (file file' : UpstreamFile)
    → IsText req.api_version
    → IsText req'.api_version
    → IsText req.content_id
    → IsText req'.content_id
    → IsText file.etag
    → IsText file'.etag
    → fingerprint_for req file ≡ fingerprint_for req' file'
    → (req.api_version ≡ req'.api_version)
      × (req.content_id ≡ req'.content_id)
      × (req.file_id ≡ req'.file_id)
      × (file ≡ file')
unfolding fingerprint_for join_nul
fingerprint_for-fields req req' file file' v v' c c' e e' h =
    let (version, h1) = split-append req.api_version req'.api_version _ _ v v' h in
    let (content, h2) = split-append req.content_id req'.content_id _ _ c c' h1 in
    let (id, h3) =
      split-append (format_int req.file_id) (format_int req'.file_id) _ _
        (format_int-IsText req.file_id) (format_int-IsText req'.file_id) h2 in
    let (size, h4) =
      split-append (format_int file.size) (format_int file'.size) _ _ (format_int-IsText file.size)
        (format_int-IsText file'.size) h3 in
    let (etag, last_modified) = split-append file.etag file'.etag _ _ e e' h4 in
    (
      version,
      content,
      format_int-injective req.file_id req'.file_id id,
      λ i. record {
        size = format_int-injective file.size file'.size size i;
        etag = etag i;
        last_modified = last_modified i;
      },
    )

-- Two validated requests for files whose entity tags hold no zero byte have the same fingerprint
-- only where their versions of the interface, their content, their file identifiers and the
-- descriptions of their files are the same.
pub fingerprint_for-injective :
    (is_blank : Bytes → Bool) (require_cache_key require_cache_key' : Bool) (req req' : Request)
    (file file' : UpstreamFile)
    → validate_request is_blank req require_cache_key ≡ ok tt
    → validate_request is_blank req' require_cache_key' ≡ ok tt
    → IsText file.etag
    → IsText file'.etag
    → fingerprint_for req file ≡ fingerprint_for req' file'
    → (req.api_version ≡ req'.api_version)
      × (req.content_id ≡ req'.content_id)
      × (req.file_id ≡ req'.file_id)
      × (file ≡ file')
fingerprint_for-injective is_blank key key' req req' file file' valid valid' e e' =
    let safe = validate_request-IsSafe is_blank req key valid in
    let safe' = validate_request-IsSafe is_blank req' key' valid' in
    fingerprint_for-fields req req' file file' (validate_request-version is_blank req key valid)
      (validate_request-version is_blank req' key' valid')
      (path_chars-IsText req.content_id safe.content_id)
      (path_chars-IsText req'.content_id safe'.content_id) e e'
