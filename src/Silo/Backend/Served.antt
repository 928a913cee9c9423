-- ===== src/Silo/Backend/Served.antt =====
-- Lemmas on what `Pages` and `Page` of internal/silo/backend.go answer.
use bloem_community_crowquil.Prelude.{
  ◌%◌, ◌≡◌, ◌+◌, ◌⊎◌, inl, inr, Bool, true, false, ◌||◌, not, Bytes, ok, length, ◌==◌, bytes_eq,
  bytes_eq_sound, arith, Result-cases, Bool-cases,
}
use bloem_community_crowquil.Prelude.Int.{ℤ, pos, ltb_ℤ}
use bloem_community_crowquil.Archive.Limits.{Limits}
use bloem_community_crowquil.Silo.Constants.{chunk_bytes}
use bloem_community_crowquil.Silo.Keys.{normalize_key}
use bloem_community_crowquil.Silo.Requests.{Request, validate_request}
use bloem_community_crowquil.Silo.Client.{Http, Texts, UpstreamClient}
use bloem_community_crowquil.Silo.Authorize.{AuthorizedRequest, Digests, authorize}
use bloem_community_crowquil.Silo.Authorize.Sound.{IsAuthorized, authorize-IsAuthorized}
use bloem_community_crowquil.Silo.Runtime.{Runtime, acquire_request}
use bloem_community_crowquil.Silo.Backend.{
  Service, Answer, Handler, with_entry, page_answer, list_authorized, serve_authorized,
  with_authorized, handle_pages, handle_page, pages, page,
}
use bloem_community_crowquil.Silo.Backend.Found.{
  IsFound, IsListed, with_entry-IsFound, or_missing-some, find_pages-IsListed, IsServed,
  found-IsServed,
}

-- The runtime that is handed to a request.
abbrev pub joined_by_one : Runtime → Runtime
joined_by_one r = record r { wg = r.wg + 1 }

module _ {S : Type 0} (service : Service S) where
  module _ (http : Http S) (t : Texts) (client : UpstreamClient) (d : Digests)
      (is_blank : Bytes → Bool) (current : Runtime) (s : S) (req : Request) (user : Bytes) where
    -- The request was validated and authorized, and its own key, if it has one, is the authorized one.
    pub record IsAllowed (require_cache_key : Bool) (a : AuthorizedRequest) : Type 0 where
      pub valid : validate_request is_blank req require_cache_key ≡ ok tt
      pub authorized : IsAuthorized http t client d req user a
      pub key : (length req.cache_key ≡ 0) ⊎ (normalize_key req.cache_key ≡ a.cache_key)

    -- The runtime behind the calls of the host that authorize a request.
    abbrev pub behind_calls : Runtime → Runtime
    behind_calls r = service.meanwhile (authorize http t client d s req user).0 r

    with_authorized-found :
        (r : Runtime) (rest : Runtime → S → AuthorizedRequest → Handler S) (answer : Answer)
        → (with_authorized service http t client d is_blank s r req user rest).1 ≡ ok answer
        → (a : AuthorizedRequest) × IsAuthorized http t client d req user a
          × ((rest (behind_calls r) (authorize http t client d s req user).0 a).1 ≡ ok answer)
    unfolding with_authorized
    with_authorized-found r rest answer h =
        let asked = authorize http t client d s req user in
        elim (Result-cases asked.1) [
          | inl (e, failed) ↦ absurd (ground (arith, failed, h))
          | inr (a, passed) ↦ (
            a,
            authorize-IsAuthorized http t client d s req user a passed,
            ground (arith, passed, h),
          )
        ]

    list_authorized-IsListed :
        (limits : Limits) (r : Runtime) (s' : S) (a : AuthorizedRequest) (answer : Answer)
        → (list_authorized service limits r req s' a).1 ≡ ok answer
        → ((length req.cache_key ≡ 0) ⊎ (normalize_key req.cache_key ≡ a.cache_key))
          × IsListed service limits a.cache_key r answer
    unfolding list_authorized
    list_authorized-IsListed limits r s' a answer h =
        elim (Bool-cases (length req.cache_key == 0)) [
          | inl empty ↦ (
            inl (ground (arith, empty)),
            find_pages-IsListed service limits s' r req a.cache_key answer
                (ground (arith, empty, h)),
          )
          | inr given ↦ elim (Bool-cases (bytes_eq (normalize_key req.cache_key) a.cache_key)) [
            | inr stale ↦ absurd (ground (arith, given, stale, h))
            | inl equal ↦ (
              inr (bytes_eq_sound (normalize_key req.cache_key) a.cache_key equal),
              find_pages-IsListed service limits s' r req a.cache_key answer
                  (ground (arith, given, equal, h)),
            )
          ]
        ]

    serve_authorized-IsFound :
        (r : Runtime) (index : ℤ) (s' : S) (a : AuthorizedRequest) (answer : Answer)
        → (serve_authorized service r req index s' a).1 ≡ ok answer
        → (normalize_key req.cache_key ≡ a.cache_key)
          × IsFound service r.cache a.cache_key
              (page_answer service a.cache_key index req.offset)
              answer
    unfolding serve_authorized
    serve_authorized-IsFound r index s' a answer h =
        let f = page_answer service a.cache_key index req.offset in
        elim (Bool-cases (bytes_eq (normalize_key req.cache_key) a.cache_key)) [
          | inr stale ↦ absurd (ground (arith, stale, h))
          | inl equal ↦ (
            bytes_eq_sound (normalize_key req.cache_key) a.cache_key equal,
            with_entry-IsFound service s' r a.cache_key f answer (
                or_missing-some service (with_entry service s' r a.cache_key f) answer
                  (ground (arith, equal, h))),
          )
        ]

    handle_pages-IsAllowed :
        (limits : Limits) (r : Runtime) (answer : Answer)
        → (handle_pages service http t client d is_blank limits s r req user).1 ≡ ok answer
        → (a : AuthorizedRequest) × IsAllowed false a
          × IsListed service limits a.cache_key (behind_calls r) answer
    unfolding handle_pages
    handle_pages-IsAllowed limits r answer h =
        elim (Result-cases (validate_request is_blank req false)) [
          | inl (e, failed) ↦ absurd (ground (arith, failed, h))
          | inr (u, valid) ↦
              let (a, authorized, rest) =
                with_authorized-found r (λ r'. list_authorized service limits r' req) answer
                  (ground (arith, valid, h)) in
              let (key, found) =
                list_authorized-IsListed limits (behind_calls r)
                  (authorize http t client d s req user).0 a answer rest in
              (a, record { valid = valid; authorized = authorized; key = key }, found)
        ]

    handle_page-IsAllowed :
        (r : Runtime) (index : ℤ) (answer : Answer)
        → (handle_page service http t client d is_blank s r req user index).1 ≡ ok answer
        → (a : AuthorizedRequest) × IsAllowed true a
          × IsServed service (behind_calls r).cache a.cache_key index req.offset answer
    unfolding handle_page
    handle_page-IsAllowed r index answer h =
        elim (Result-cases (validate_request is_blank req true)) [
          | inl (e, failed) ↦ absurd (ground (arith, failed, h))
          | inr (u, valid) ↦
              elim (Bool-cases (ltb_ℤ index (pos 0) || not (req.offset % chunk_bytes == 0))) [
                | inl bad ↦ absurd (ground (arith, valid, bad, h))
                | inr good ↦
                    let (a, authorized, rest) =
                      with_authorized-found r (λ r'. serve_authorized service r' req index) answer
                        (ground (arith, valid, good, h)) in
                    let (key, found) =
                      serve_authorized-IsFound (behind_calls r) index
                        (authorize http t client d s req user).0 a answer rest in
                    (
                      a,
                      record { valid = valid; authorized = authorized; key = inr key },
                      found-IsServed service (behind_calls r).cache a.cache_key index req.offset
                          answer (ground (arith, good)) found,
                    )
              ]
        ]

    -- Where the pages are listed, the request was validated and authorized, the cache key that it
    -- gave, if it gave one, is the authorized one, and the answer holds the authorized key, the
    -- names and sizes of all pages of an entry under it in their order, and no bytes. The entry is
    -- neither retired nor expired, and all its pages are intact in the file system; it is in the
    -- open cache as the calls of the host leave it, or, where a lookup there gives none, in the one
    -- behind the wait for the job of the key.
    pub pages-IsAllowed :
        (limits : Limits) (answer : Answer)
        → (pages service http t client d is_blank limits s current req user).1 ≡ ok answer
        → (a : AuthorizedRequest) × IsAllowed false a
          × IsListed service limits a.cache_key (behind_calls (joined_by_one current)) answer
    unfolding pages acquire_request
    pages-IsAllowed limits answer h = elim (Bool-cases current.stopping) [
      | inl stopping ↦ absurd (ground (arith, stopping, h))
      | inr going ↦
          handle_pages-IsAllowed limits (joined_by_one current) answer (ground (arith, going, h))
    ]

    -- Where a page's bytes are served, the request was validated and authorized, the cache key that
    -- it gave, if it gave one, is the authorized one, and the answer holds the authorized key, no
    -- pages, and the bytes from the request's offset on of the file of the page with the index: a
    -- whole chunk, or up to the end of the page, not none. The page is of an entry that the open
    -- cache, as the calls of the host leave it, holds under the authorized key, that is neither
    -- retired nor expired, and whose pages are all intact in the file system.
    pub page-IsAllowed :
        (index : ℤ) (answer : Answer)
        → (page service http t client d is_blank s current req user index).1 ≡ ok answer
        → (a : AuthorizedRequest) × IsAllowed true a
          × IsServed service
              (behind_calls (joined_by_one current)).cache
              a.cache_key
              index
              req.offset
              answer
    unfolding page acquire_request
    page-IsAllowed index answer h = elim (Bool-cases current.stopping) [
      | inl stopping ↦ absurd (ground (arith, stopping, h))
      | inr going ↦
          handle_page-IsAllowed (joined_by_one current) index answer (ground (arith, going, h))
    ]
