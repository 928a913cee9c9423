-- ===== src/Silo/Runtime/Listing.antt =====
-- Lemmas on the map of jobs of the runtime of internal/silo/backend.go.
use mathlib.Core.Path.{subst}
use bloem_community_crowquil.Prelude.{
  append_assoc, ℕ, ◌+◌, ◌≡◌, refl, sym, ap, ◌∙◌, false, Bytes, List, [], ◌∷◌, ◌++◌, none, some, ok,
  ok-injective, arith, Bool-cases, inl, inr, bytes_eq, bytes_eq_sound, bytes_eq_refl,
}
use bloem_community_crowquil.Archive.Limits.{Limits}
use bloem_community_crowquil.Silo.Requests.{ApiError}
use bloem_community_crowquil.Silo.Cache.State.{FileSystem, PageCache}
use bloem_community_crowquil.Silo.Runtime.Start.{start_cases}
use bloem_community_crowquil.Silo.Runtime.{
  Runtime, new_runtime, acquire_request, done_one, find_job, delete_job, get_or_start_job,
  return_slot, unlist, stop, finish_close, Phase, extracting, freed, returned, unlisted, Running,
  Live, push_started, Step, acquire, leave, look_up, release_handle, start, make_dir, commit,
  release_reservation, give_back, drop, end_job, sweep, end_sweeper, stop_runtime, close, Reach,
  here, next, init,
}

-- What a job that has not left the map has in it.
abbrev pub listing_at : Bytes → ℕ → Phase → List (Bytes × ℕ)
listing_at key job (extracting r) = (key, job) ∷ []
listing_at key job freed = (key, job) ∷ []
listing_at key job returned = (key, job) ∷ []
listing_at key job unlisted = []

abbrev pub listing_of : Running → List (Bytes × ℕ)
listing_of j = listing_at j.key j.job j.phase

unfoldable pub listed : List Running → List (Bytes × ℕ)
listed [] = []
listed (j ∷ running) = listing_of j ++ listed running

-- No key stands twice.
abbrev pub AreUnique : List (Bytes × ℕ) → Type 0
AreUnique [] = Unit {0}
AreUnique ((key, job) ∷ jobs) = (find_job key jobs ≡ none) × AreUnique jobs

pub record IsListed (s : Live) : Type 0 where
  pub jobs : s.runtime.jobs ≡ listed s.running
  pub unique : AreUnique s.runtime.jobs

listed-append : (xs ys : List Running) → listed (xs ++ ys) ≡ listed xs ++ listed ys
unfolding listed
listed-append [] ys = refl
listed-append (j ∷ xs) ys =
    ap (λ l. listing_of j ++ l) (listed-append xs ys)
    ∙ sym (append_assoc (listing_of j) (listed xs) (listed ys))

listed-middle :
    (front : List Running) (j : Running) (back : List Running) (l : List (Bytes × ℕ))
    → listing_of j ≡ l
    → listed (front ++ j ∷ back) ≡ listed front ++ (l ++ listed back)
unfolding listed
listed-middle front j back l e =
    listed-append front (j ∷ back) ∙ ap (λ x. listed front ++ (x ++ listed back)) e

find_job-skip :
    (key k : Bytes) (n : ℕ) (front back : List (Bytes × ℕ))
    → find_job key (front ++ (k, n) ∷ back) ≡ none
    → (find_job key (front ++ back) ≡ none) × (bytes_eq k key ≡ false)
unfolding find_job
find_job-skip key k n [] back h = ground (arith, h)
find_job-skip key k n ((k', n') ∷ front) back h =
    let rest = find_job-skip key k n front back in ground (arith, h, rest)

remove-AreUnique :
    (front : List (Bytes × ℕ)) (k : Bytes) (n : ℕ) (back : List (Bytes × ℕ))
    → AreUnique (front ++ (k, n) ∷ back)
    → AreUnique (front ++ back)
remove-AreUnique [] k n back u = u.1
remove-AreUnique ((k', n') ∷ front) k n back u =
    ((find_job-skip k' k n front back u.0).0, remove-AreUnique front k n back u.1)

delete_job-absent :
    (key : Bytes) (jobs : List (Bytes × ℕ)) → find_job key jobs ≡ none → delete_job key jobs ≡ jobs
unfolding find_job delete_job
delete_job-absent key [] h = refl
delete_job-absent key ((k, n) ∷ jobs) h =
    let rest = delete_job-absent key jobs in ground (arith, h, rest)

delete_job-middle :
    (front : List (Bytes × ℕ)) (k : Bytes) (n : ℕ) (back : List (Bytes × ℕ))
    → AreUnique (front ++ (k, n) ∷ back)
    → delete_job k (front ++ (k, n) ∷ back) ≡ front ++ back
unfolding delete_job
delete_job-middle [] k n back u =
    let same = bytes_eq_refl k in
    let absent = delete_job-absent k back u.0 in ground (arith, same, absent)
delete_job-middle ((k', n') ∷ front) k n back u =
    let rest = delete_job-middle front k n back u.1 in
    let other : bytes_eq k k' ≡ false = (find_job-skip k' k n front back u.0).1 in
    elim (Bool-cases (bytes_eq k' k)) [
      | inr different ↦ ground (arith, different, rest)
      | inl equal ↦
          let same = bytes_eq_refl k in
          let e = bytes_eq_sound k' k equal in
          absurd (ground (arith, same, subst (λ x. bytes_eq k x ≡ false) e other))
    ]

replace-IsListed :
    (s : Live) (r : Runtime) (front : List Running) (i j : Running) (back : List Running)
    → IsListed s
    → r.jobs ≡ s.runtime.jobs
    → s.running ≡ front ++ i ∷ back
    → listing_of j ≡ listing_of i
    → IsListed (record s { runtime = r; running = front ++ j ∷ back })
replace-IsListed s r front i j back v same e p = record {
  jobs =
      same
      ∙ v.jobs
      ∙ ap listed e
      ∙ listed-middle front i back (listing_of i) refl
      ∙ sym (listed-middle front j back (listing_of i) p);
  unique = subst AreUnique (sym same) v.unique;
}

acquire-IsListed :
    (s : Live) (r : Runtime)
    → IsListed s
    → acquire_request (some s.runtime) ≡ ok r
    → IsListed (record s { runtime = r; requests = none ∷ s.requests })
unfolding acquire_request
acquire-IsListed s r v h = elim (Bool-cases s.runtime.stopping) [
  | inl stopping ↦ absurd (ground (arith, stopping, h))
  | inr running ↦
      let made : record s.runtime { wg = s.runtime.wg + 1 } ≡ r =
        ok-injective {E = ApiError} (ground (arith, running, h)) in
      subst (λ r'. IsListed (record s { runtime = r'; requests = none ∷ s.requests })) made
        (record { jobs = v.jobs; unique = v.unique })
]

start-IsListed :
    (s : Live) (fs : FileSystem) (limits : Limits) (now : ℕ) (key : Bytes)
    → IsListed s
    → IsListed (record s {
      runtime = (get_or_start_job fs limits now key s.runtime).0;
      running = push_started key (get_or_start_job fs limits now key s.runtime).1 s.running;
    })
unfolding listed
start-IsListed s fs limits now key v =
    start_cases fs limits now key s.runtime
      (λ o. IsListed (record s { runtime = o.0; running = push_started key o.1 s.running })) v
      (λ job. v) (λ e. v) (λ e full. record { jobs = v.jobs; unique = v.unique })
      (λ r free new granted. record {
        jobs = ap (λ l. (key, s.runtime.next_job) ∷ l) v.jobs;
        unique = (new, v.unique);
      })

drop-IsListed :
    (s : Live) (front : List Running) (j : Running) (back : List Running)
    → IsListed s
    → s.running ≡ front ++ j ∷ back
    → j.phase ≡ returned
    → IsListed (record s {
      runtime = unlist j.key s.runtime;
      running = front ++ record j { phase = unlisted } ∷ back;
    })
unfolding unlist
drop-IsListed s front j back v e p =
    let had : s.runtime.jobs ≡ listed front ++ (j.key, j.job) ∷ listed back =
      v.jobs
      ∙ ap listed e
      ∙ listed-middle front j back ((j.key, j.job) ∷ []) (ap (listing_at j.key j.job) p) in
    let unique = subst AreUnique had v.unique in
    let left : delete_job j.key s.runtime.jobs ≡ listed front ++ listed back =
      ap (delete_job j.key) had
      ∙ delete_job-middle (listed front) j.key j.job (listed back) unique in
    record {
      jobs = left ∙ sym (listed-middle front (record j { phase = unlisted }) back [] refl);
      unique =
          subst AreUnique (sym left)
            (remove-AreUnique (listed front) j.key j.job (listed back) unique);
    }

pub Step-IsListed : {s t : Live} → IsListed s → Step s t → IsListed t
unfolding done_one return_slot stop finish_close
Step-IsListed {s} v (acquire r h) = acquire-IsListed s r v h
Step-IsListed v (leave front back h) = record { jobs = v.jobs; unique = v.unique }
Step-IsListed v (look_up fs key now front back h) = record { jobs = v.jobs; unique = v.unique }
Step-IsListed v (release_handle front h back e) = record { jobs = v.jobs; unique = v.unique }
Step-IsListed {s} v (start fs limits now key front back h) = start-IsListed s fs limits now key v
Step-IsListed {s} v (make_dir front j r back path e p f u) =
    replace-IsListed s s.runtime front j _ back v refl e (sym (ap (listing_at j.key j.job) p))
Step-IsListed {s} v (commit fs front j r back fingerprint output_dir pages now e p) =
    replace-IsListed s _ front j _ back v refl e (sym (ap (listing_at j.key j.job) p))
Step-IsListed {s} v (release_reservation fs front j r back e p) =
    replace-IsListed s _ front j _ back v refl e (sym (ap (listing_at j.key j.job) p))
Step-IsListed {s} v (give_back front j back e p) =
    replace-IsListed s _ front j _ back v refl e (sym (ap (listing_at j.key j.job) p))
Step-IsListed {s} v (drop front j back e p) = drop-IsListed s front j back v e p
Step-IsListed {s} v (end_job front j back e p) = record {
  jobs =
      v.jobs
      ∙ ap listed e
      ∙ listed-middle front j back [] (ap (listing_at j.key j.job) p)
      ∙ sym (listed-append front back);
  unique = v.unique;
}
Step-IsListed v (sweep fs now e) = record { jobs = v.jobs; unique = v.unique }
Step-IsListed v (end_sweeper e p) = record { jobs = v.jobs; unique = v.unique }
Step-IsListed v stop_runtime = record { jobs = v.jobs; unique = v.unique }
Step-IsListed v (close fs e p) = record { jobs = v.jobs; unique = v.unique }

-- In every state that a runtime can reach from its start, the map of jobs holds exactly the keys
-- and jobs of the goroutines that have not left it, and no key twice, so no two of them work for
-- one key.
pub runtime-IsListed : (cache : PageCache) (s : Live) → Reach (init cache) s → IsListed s
unfolding init new_runtime listed
runtime-IsListed cache s here = record { jobs = refl; unique = tt }
runtime-IsListed cache s (next before step) = Step-IsListed (runtime-IsListed cache _ before) step
