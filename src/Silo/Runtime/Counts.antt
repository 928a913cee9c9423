-- ===== src/Silo/Runtime/Counts.antt =====
-- Lemmas on the group, the slot and the shutdown of the runtime of internal/silo/backend.go.
use mathlib.Core.Path.{subst}
use bloem_community_crowquil.Prelude.{
  ℕ, suc, ◌+◌, ◌≤◌, ◌≡◌, refl, sym, ap, ◌∙◌, Bool, true, false, Bytes, List, [], ◌∷◌, ◌++◌, none,
  some, ok, ok-injective, length, length-append, arith, Bool-cases, inl, inr,
}
use bloem_community_crowquil.Archive.Limits.{Limits}
use bloem_community_crowquil.Silo.Requests.{ApiError}
use bloem_community_crowquil.Silo.Cache.State.{FileSystem, PageCache}
use bloem_community_crowquil.Prelude.Int.{◌+ℤ◌}
use bloem_community_crowquil.Silo.Cache.Sweep.Closed.{sweep-closed, close-closed}
use bloem_community_crowquil.Silo.Cache.Closed.{
  lookup-closed, reserve-closed, release-closed, commit-closed, release_handle-closed,
}
use bloem_community_crowquil.Silo.Runtime.Start.{start_cases}
use bloem_community_crowquil.Silo.Runtime.{
  Runtime, new_runtime, acquire_request, done_one, get_or_start_job, return_slot, unlist, stop,
  finish_close, Phase, extracting, freed, returned, unlisted, Running, Live, push_started, Step,
  acquire, leave, look_up, release_handle, start, make_dir, commit, release_reservation, give_back,
  drop, end_job, sweep, end_sweeper, stop_runtime, close, Reach, here, next, init,
}

abbrev pub slot_of : Phase → ℕ
slot_of (extracting r) = 1
slot_of freed = 1
slot_of returned = 0
slot_of unlisted = 0

-- How many jobs hold the slot.
unfoldable pub slots : List Running → ℕ
slots [] = 0
slots (j ∷ running) = slot_of j.phase + slots running

abbrev pub one_if : Bool → ℕ
one_if true = 1
one_if false = 0

pub record AreCounted (s : Live) : Type 0 where
  pub group : s.runtime.wg ≡ length s.requests + length s.running + one_if s.sweeping
  pub slot : slots s.running ≡ one_if s.runtime.extract
  pub shut : s.runtime.cache.closed ≡ s.runtime.closed
  pub drained : s.runtime.closed ≡ true → (s.runtime.stopping ≡ true) × (s.runtime.wg ≡ 0)

length-middle {ℓ} :
    {A : Type ℓ} (front : List A) (x : A) (back : List A) (xs : List A)
    → xs ≡ front ++ x ∷ back
    → length xs ≡ suc (length (front ++ back))
length-middle front x back xs h =
    omega (arith, ap length h, length-append front (x ∷ back), length-append front back)

length-replace {ℓ} :
    {A : Type ℓ} (front : List A) (x y : A) (back : List A) (xs : List A)
    → xs ≡ front ++ x ∷ back
    → length (front ++ y ∷ back) ≡ length xs
length-replace front x y back xs h =
    omega (arith, ap length h, length-append front (x ∷ back), length-append front (y ∷ back))

slots-append : (front back : List Running) → slots (front ++ back) ≡ slots front + slots back
unfolding slots
slots-append [] back = omega arith
slots-append (j ∷ front) back = omega (arith, slots-append front back)

slots-replace :
    (front : List Running) (i j : Running) (back running : List Running)
    → running ≡ front ++ i ∷ back
    → slots (front ++ j ∷ back) + slot_of i.phase ≡ slots running + slot_of j.phase
unfolding slots
slots-replace front i j back running h =
    omega (arith, ap slots h, slots-append front (i ∷ back), slots-append front (j ∷ back))

slots-remove :
    (front : List Running) (j : Running) (back running : List Running)
    → running ≡ front ++ j ∷ back
    → slots (front ++ back) + slot_of j.phase ≡ slots running
unfolding slots
slots-remove front j back running h =
    omega (arith, ap slots h, slots-append front (j ∷ back), slots-append front back)

acquire-AreCounted :
    (s : Live) (r : Runtime)
    → AreCounted s
    → acquire_request (some s.runtime) ≡ ok r
    → AreCounted (record s { runtime = r; requests = none ∷ s.requests })
unfolding acquire_request
acquire-AreCounted s r v h = elim (Bool-cases s.runtime.stopping) [
  | inl stopping ↦ absurd (ground (arith, stopping, h))
  | inr running ↦
      let made : record s.runtime { wg = s.runtime.wg + 1 } ≡ r =
        ok-injective {E = ApiError} (ground (arith, running, h)) in
      subst (λ r'. AreCounted (record s { runtime = r'; requests = none ∷ s.requests })) made
        (record {
          group = omega (arith, v.group);
          slot = v.slot;
          shut = v.shut;
          drained = λ c. absurd (let d = v.drained c in ground (arith, d, running));
        })
]

one_if-le : (b : Bool) → one_if b ≤ 1
one_if-le true = omega arith
one_if-le false = omega arith

-- A step of a job that stays in the group and keeps its part in the slot.
replace-AreCounted :
    (s : Live) (c : PageCache) (jobs : List (Bytes × ℕ)) (front : List Running) (i j : Running)
    (back : List Running)
    → AreCounted s
    → s.running ≡ front ++ i ∷ back
    → slot_of j.phase ≡ slot_of i.phase
    → c.closed ≡ s.runtime.cache.closed
    → AreCounted (record s {
      runtime = record s.runtime { cache = c; jobs = jobs };
      running = front ++ j ∷ back;
    })
replace-AreCounted s c jobs front i j back v e p same = record {
  group = omega (arith, v.group, length-replace front i j back s.running e);
  slot = omega (arith, v.slot, slots-replace front i j back s.running e, p);
  shut = same ∙ v.shut;
  drained = v.drained;
}

-- The new job, if there is one, takes its place in the group and the slot.
start-AreCounted :
    (s : Live) (fs : FileSystem) (limits : Limits) (now : ℕ) (key : Bytes)
    → AreCounted s
    → 1 ≤ length s.requests
    → AreCounted (record s {
      runtime = (get_or_start_job fs limits now key s.runtime).0;
      running = push_started key (get_or_start_job fs limits now key s.runtime).1 s.running;
    })
unfolding slots
start-AreCounted s fs limits now key v some_request =
    let reserved =
      reserve-closed fs (limits.max_archive_bytes +ℤ limits.max_total_bytes) now s.runtime.cache in
    start_cases fs limits now key s.runtime
      (λ o. AreCounted (record s { runtime = o.0; running = push_started key o.1 s.running })) v
      (λ job. v) (λ e. v)
      (λ e full. record {
        group = v.group;
        slot = v.slot;
        shut = reserved ∙ v.shut;
        drained = v.drained;
      })
      (λ r free new granted. record {
        group = omega (arith, v.group);
        slot = omega (arith, v.slot, ap one_if free);
        shut = reserved ∙ v.shut;
        drained = λ c. absurd (let d = v.drained c in omega (arith, v.group, d.1, some_request));
      })

pub Step-AreCounted : {s t : Live} → AreCounted s → Step s t → AreCounted t
unfolding done_one return_slot unlist stop finish_close
Step-AreCounted {s} v (acquire r h) = acquire-AreCounted s r v h
Step-AreCounted {s} v (leave front back h) =
    let n = length-middle front none back s.requests h in
    record {
      group = omega (arith, v.group, n);
      slot = v.slot;
      shut = v.shut;
      drained = λ c. (let d = v.drained c in (d.0, omega (arith, d.1)));
    }
Step-AreCounted {s} v (look_up fs key now front back h) =
    let n = length-middle front none back s.requests h in
    record {
      group = omega (arith, v.group, n);
      slot = v.slot;
      shut = lookup-closed fs key now s.runtime.cache ∙ v.shut;
      drained = v.drained;
    }
Step-AreCounted {s} v (release_handle front h back e) =
    let n = length-replace front (some h) none back s.requests e in
    record {
      group = omega (arith, v.group, n);
      slot = v.slot;
      shut = release_handle-closed (some h) s.runtime.cache ∙ v.shut;
      drained = v.drained;
    }
Step-AreCounted {s} v (start fs limits now key front back h) =
    let n = length-middle front none back s.requests h in
    start-AreCounted s fs limits now key v (omega (arith, n))
Step-AreCounted {s} v (make_dir front j r back path e p f u) =
    replace-AreCounted s s.runtime.cache s.runtime.jobs front j _ back v e (sym (ap slot_of p)) refl
Step-AreCounted {s} v (commit fs front j r back fingerprint output_dir pages now e p) =
    replace-AreCounted s _ s.runtime.jobs front j _ back v e (sym (ap slot_of p))
      (commit-closed fs s.runtime.cache r j.key fingerprint output_dir pages now)
Step-AreCounted {s} v (release_reservation fs front j r back e p) =
    replace-AreCounted s _ s.runtime.jobs front j _ back v e (sym (ap slot_of p))
      (release-closed fs s.runtime.cache r)
Step-AreCounted {s} v (give_back front j back e p) =
    let i = record j { phase = returned } in
    let m = slots-replace front j i back s.running e in
    let held = ap slot_of p in
    let most = one_if-le s.runtime.extract in
    record {
      group = omega (arith, v.group, length-replace front j i back s.running e);
      slot = omega (arith, v.slot, m, held, most);
      shut = v.shut;
      drained = v.drained;
    }
Step-AreCounted {s} v (drop front j back e p) =
    replace-AreCounted s s.runtime.cache _ front j _ back v e (sym (ap slot_of p)) refl
Step-AreCounted {s} v (end_job front j back e p) = record {
  group = omega (arith, v.group, length-middle front j back s.running e);
  slot = omega (arith, v.slot, slots-remove front j back s.running e, ap slot_of p);
  shut = v.shut;
  drained = λ c. (let d = v.drained c in (d.0, omega (arith, d.1)));
}
Step-AreCounted {s} v (sweep fs now e) = record {
  group = v.group;
  slot = v.slot;
  shut = sweep-closed fs now s.runtime.cache ∙ v.shut;
  drained = v.drained;
}
Step-AreCounted {s} v (end_sweeper e p) = record {
  group = omega (arith, v.group, ap one_if e);
  slot = v.slot;
  shut = v.shut;
  drained = λ c. (let d = v.drained c in (d.0, omega (arith, d.1)));
}
Step-AreCounted {s} v stop_runtime = record {
  group = v.group;
  slot = v.slot;
  shut = v.shut;
  drained = λ c. (refl, (v.drained c).1);
}
Step-AreCounted {s} v (close fs e p) = record {
  group = v.group;
  slot = v.slot;
  shut = close-closed fs s.runtime.cache;
  drained = λ c. (e, p);
}

-- In every state that a runtime can reach from its start with an open cache, the group counts
-- exactly the requests, the jobs and the sweeper that have not ended; the extraction slot is taken
-- exactly where one job holds it, and never by two; and the cache is closed exactly where the
-- runtime's close has returned, and then the runtime is stopping and the group is empty.
pub runtime_counted :
    (cache : PageCache) (s : Live) → cache.closed ≡ false → Reach (init cache) s → AreCounted s
unfolding init new_runtime slots
runtime_counted cache s opened here = record {
  group = refl;
  slot = refl;
  shut = opened;
  drained = λ h. ground arith;
}
runtime_counted cache s opened (next before step) =
    Step-AreCounted (runtime_counted cache _ opened before) step
