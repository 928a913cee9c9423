-- ===== src/Silo/Runtime/Refines.antt =====
-- Lemmas that the runtime of internal/silo/backend.go uses its cache as the cache's callers may.
use mathlib.Core.Path.{subst}
use bloem_community_crowquil.Prelude.{
  ℕ, ◌+◌, ◌≡◌, refl, sym, ap, ◌∙◌, Bytes, FilePath, List, [], ◌∷◌, ◌++◌, Option, none, some, ok,
  ok-injective, length, arith, Bool-cases, inl, inr,
}
use bloem_community_crowquil.Prelude.Int.{ℤ, ◌+ℤ◌}
use bloem_community_crowquil.Archive.Limits.{Limits}
use bloem_community_crowquil.Silo.Requests.{ApiError}
use bloem_community_crowquil.Silo.Cache.State.{FileSystem, PageHandle, CacheReservation, PageCache}
use bloem_community_crowquil.Silo.Cache.System
use bloem_community_crowquil.Silo.Cache.System.{System}
use bloem_community_crowquil.Silo.Runtime.Start.{start_cases}
use bloem_community_crowquil.Silo.Runtime.Counts.{AreCounted, runtime_counted}
use bloem_community_crowquil.Silo.Runtime.{
  Runtime, new_runtime, reserve_for, acquire_request, done_one, get_or_start_job, return_slot,
  unlist, stop, finish_close, Phase, extracting, freed, returned, unlisted, reservation_of, Running,
  Live, push_started, held, reserved, callers, Step, acquire, leave, look_up, release_handle, start,
  make_dir, commit, release_reservation, give_back, drop, end_job, sweep, end_sweeper, stop_runtime,
  close, Reach, here, next, init,
}

held-append : (xs ys : List (Option PageHandle)) → held (xs ++ ys) ≡ held xs ++ held ys
unfolding held
held-append [] ys = refl
held-append (none ∷ xs) ys = held-append xs ys
held-append (some h ∷ xs) ys = ap (λ l. h ∷ l) (held-append xs ys)

reserved-append : (xs ys : List Running) → reserved (xs ++ ys) ≡ reserved xs ++ reserved ys
unfolding reserved
reserved-append [] ys = refl
reserved-append (j ∷ xs) ys = by_phase (reserved-append xs ys) j.phase
  where
    by_phase :
        reserved (xs ++ ys) ≡ reserved xs ++ reserved ys
        → (p : Phase)
        → System.push (reservation_of p) (reserved (xs ++ ys))
          ≡ System.push (reservation_of p) (reserved xs) ++ reserved ys
    by_phase rest (extracting r) = ap (λ l. r ∷ l) rest
    by_phase rest freed = rest
    by_phase rest returned = rest
    by_phase rest unlisted = rest

held-idle :
    (requests front back : List (Option PageHandle))
    → requests ≡ front ++ none ∷ back
    → held requests ≡ held (front ++ back)
unfolding held
held-idle requests front back e =
    ap held e ∙ held-append front (none ∷ back) ∙ sym (held-append front back)

held-busy :
    (requests front back : List (Option PageHandle)) (h : PageHandle)
    → requests ≡ front ++ some h ∷ back
    → held requests ≡ held front ++ h ∷ held back
unfolding held
held-busy requests front back h e = ap held e ∙ held-append front (some h ∷ back)

-- What a job holds where it stands among the others.
abbrev holding : List Running → Option CacheReservation → List Running → List CacheReservation
holding front o back = reserved front ++ System.push o (reserved back)

reserved-middle :
    (front : List Running) (j : Running) (back running : List Running) (o : Option CacheReservation)
    → running ≡ front ++ j ∷ back
    → reservation_of j.phase ≡ o
    → reserved running ≡ holding front o back
unfolding reserved
reserved-middle front j back running o e p =
    ap reserved e ∙ reserved-append front (j ∷ back) ∙ ap (λ x. holding front x back) p

reserved-replace :
    (front : List Running) (j : Running) (back : List Running)
    → reserved (front ++ j ∷ back) ≡ holding front (reservation_of j.phase) back
unfolding reserved
reserved-replace front j back = reserved-append front (j ∷ back)

-- A job that holds no reservation may change its phase to another one without.
reserved-same :
    (front : List Running) (i j : Running) (back running : List Running)
    → running ≡ front ++ i ∷ back
    → reservation_of i.phase ≡ none
    → reservation_of j.phase ≡ none
    → reserved running ≡ reserved (front ++ j ∷ back)
reserved-same front i j back running e p q =
    reserved-middle front i back running none e p
    ∙ sym (reserved-replace front j back ∙ ap (λ x. holding front x back) q)

none_held : (requests : List (Option PageHandle)) → length requests ≡ 0 → held requests ≡ []
unfolding held
none_held [] h = refl
none_held (x ∷ requests) h = absurd (omega (arith, h))

none_reserved : (running : List Running) → length running ≡ 0 → reserved running ≡ []
unfolding reserved
none_reserved [] h = refl
none_reserved (j ∷ running) h = absurd (omega (arith, h))

module _ (a : System) where
  abbrev Holds : PageCache → List PageHandle → List CacheReservation → Type 0
  Holds c hs rs = System.Reach a (record { cache = c; handles = hs; reservations = rs })

  with_handles :
      {c : PageCache} {hs hs' : List PageHandle} {rs : List CacheReservation}
      → hs ≡ hs'
      → Holds c hs rs
      → Holds c hs' rs
  with_handles {c} {rs} p = subst (λ l. Holds c l rs) p

  with_reservations :
      {c : PageCache} {hs : List PageHandle} {rs rs' : List CacheReservation}
      → rs ≡ rs'
      → Holds c hs rs
      → Holds c hs rs'
  with_reservations {c} {hs} p = subst (Holds c hs) p

  acquire-Holds :
      (s : Live) (r : Runtime)
      → acquire_request (some s.runtime) ≡ ok r
      → System.Reach a (callers s)
      → Holds r.cache (held s.requests) (reserved s.running)
  unfolding acquire_request
  acquire-Holds s r h before = elim (Bool-cases s.runtime.stopping) [
    | inl stopping ↦ absurd (ground (arith, stopping, h))
    | inr running ↦
        let made : record s.runtime { wg = s.runtime.wg + 1 } ≡ r =
          ok-injective {E = ApiError} (ground (arith, running, h)) in
        subst (λ r'. Holds r'.cache (held s.requests) (reserved s.running)) made before
  ]

  start-Holds :
      (s : Live) (fs : FileSystem) (limits : Limits) (now : ℕ) (key : Bytes)
      → System.Reach a (callers s)
      → let o = get_or_start_job fs limits now key s.runtime in
        Holds o.0.cache (held s.requests) (reserved (push_started key o.1 s.running))
  unfolding reserved
  start-Holds s fs limits now key before =
      let o = reserve_for fs limits now s.runtime.cache in
      let asked : Holds o.0 (held s.requests) (System.push o.1 (reserved s.running)) =
        System.next before
          (System.reserve fs (limits.max_archive_bytes +ℤ limits.max_total_bytes) now) in
      start_cases fs limits now key s.runtime
        (λ o. Holds o.0.cache (held s.requests) (reserved (push_started key o.1 s.running))) before
        (λ job. before) (λ e. before)
        (λ e full. with_reservations (ap (λ r. System.push r (reserved s.running)) full) asked)
        (λ r free new granted.
          with_reservations (ap (λ x. System.push x (reserved s.running)) granted) asked)

  extend :
      {s t : Live}
      → AreCounted s
      → System.Reach a (callers s)
      → Step s t
      → System.Reach a (callers t)
  unfolding held done_one return_slot unlist stop finish_close
  extend {s} v before (acquire r h) = acquire-Holds s r h before
  extend {s} v before (leave front back h) = with_handles (held-idle s.requests front back h) before
  extend {s} v before (look_up fs key now front back h) =
      System.next (with_handles (held-idle s.requests front back h) before)
        (System.look_up fs key now)
  extend {s} v before (release_handle front h back e) =
      with_handles (sym (held-append front (none ∷ back))) (
        System.next before
          (System.leave (held front) h (held back) (held-busy s.requests front back h e)))
  extend {s} v before (start fs limits now key front back h) =
      start-Holds s fs limits now key before
  extend {s} v before (make_dir front j r back path e p f u) =
      with_reservations (sym (reserved-replace front _ back)) (
        System.next before (
          System.open_job (reserved front) r (reserved back) path
            (reserved-middle front j back s.running (some r) e (ap reservation_of p)) f u))
  extend {s} v before (commit fs front j r back fingerprint output_dir pages now e p) =
      with_reservations (sym (reserved-replace front _ back)) (
        System.next before (
          System.commit fs (reserved front) r (reserved back) j.key fingerprint output_dir pages now
            (reserved-middle front j back s.running (some r) e (ap reservation_of p))))
  extend {s} v before (release_reservation fs front j r back e p) =
      with_reservations (sym (reserved-replace front _ back)) (
        System.next before (
          System.free fs (reserved front) r (reserved back)
            (reserved-middle front j back s.running (some r) e (ap reservation_of p))))
  extend {s} v before (give_back front j back e p) =
      with_reservations (reserved-same front j _ back s.running e (ap reservation_of p) refl) before
  extend {s} v before (drop front j back e p) =
      with_reservations (reserved-same front j _ back s.running e (ap reservation_of p) refl) before
  extend {s} v before (end_job front j back e p) =
      with_reservations
        (reserved-middle front j back s.running none e (ap reservation_of p)
          ∙ sym (reserved-append front back))
        before
  extend {s} v before (sweep fs now e) = System.next before (System.sweep fs now)
  extend {s} v before (end_sweeper e p) = before
  extend {s} v before stop_runtime = before
  extend {s} v before (close fs e p) = System.next before (
      System.close fs (none_held s.requests (omega (arith, v.group, p)))
        (none_reserved s.running (omega (arith, v.group, p))))

-- Every run of a runtime, with its requests, jobs, sweeper and shutdown interleaved in any order,
-- uses its cache in an order of calls that the cache's callers may make, in which it is closed only
-- when no handle and no reservation is left.
pub runtime-System :
    (root : FilePath) (max_bytes : ℤ) (fallback_ttl : ℕ) (s : Live)
    → Reach (init (System.init root max_bytes fallback_ttl).cache) s
    → System.Reach (System.init root max_bytes fallback_ttl) (callers s)
unfolding init new_runtime held reserved System.init
runtime-System root max_bytes fallback_ttl s here = System.here
runtime-System root max_bytes fallback_ttl s (next before step) =
    extend (System.init root max_bytes fallback_ttl)
      (runtime_counted (System.init root max_bytes fallback_ttl).cache _ refl before)
      (runtime-System root max_bytes fallback_ttl _ before) step
