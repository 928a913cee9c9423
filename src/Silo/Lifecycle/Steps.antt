-- ===== src/Silo/Lifecycle/Steps.antt =====
-- Lemmas on the steps of the lifecycle of runtimes in internal/silo/backend.go.
use mathlib.Core.Path.{subst}
use bloem_community_crowquil.Prelude.{
  ℕ, ◌≡◌, refl, sym, ap, ◌∙◌, inl, inr, [], ◌∷◌, ◌++◌, Option, none, some, ok, zero, suc, List,
  length-append, Result-cases, Option-cases, length, get_elem?, arith,
}
use bloem_community_crowquil.Silo.Config.{Config, normalize_config}
use bloem_community_crowquil.Silo.Cache.State.{FileSystem}
use bloem_community_crowquil.Silo.Runtime.{
  Live, stop, finish_close, new_runtime, stop_runtime, close,
}
use bloem_community_crowquil.Silo.Runtime
use bloem_community_crowquil.Silo.Client.{UpstreamClient}
use bloem_community_crowquil.Silo.Lifecycle.{
  ConfigTexts, Purpose, closing, replacing, Turn, free, locked, taken, waiting, vacant, started,
  Backend, new_backend, set_at, next_runtime, validate_configuration, new_upstream_client, Step,
  lock_closing, lock_replacing, take, skip, stop_previous, join_previous, finish_closing, give_up,
  start_next, publish, run, Reach, here, next,
}
use bloem_community_crowquil.Silo.Lifecycle.Orderly.{
  get_elem?-append, holder, accepting, stopped_one, IsShown, IsNormalized, IsAccepted, IsGuarded,
  Fits, IsOrderly, new_backend-IsOrderly, turn-IsOrderly, place-IsOrderly,
}

get_elem?-snoc :
    (i : ℕ) (cfg cfg' : Config) (cs : List Config)
    → get_elem? cs i ≡ some cfg
    → get_elem? (cs ++ cfg' ∷ []) i ≡ some cfg
get_elem?-snoc i cfg cfg' [] h = cc
get_elem?-snoc zero cfg cfg' (c ∷ cs) h = h
get_elem?-snoc (suc i) cfg cfg' (c ∷ cs) h = get_elem?-snoc i cfg cfg' cs h

get_elem?-last :
    (i : ℕ) (cfg : Config) (cs : List Config)
    → i ≡ length cs
    → get_elem? (cs ++ cfg ∷ []) i ≡ some cfg
get_elem?-last zero cfg [] h = refl
get_elem?-last (suc i) cfg [] h = absurd (omega (arith, h))
get_elem?-last zero cfg (c ∷ cs) h = absurd (omega (arith, h))
get_elem?-last (suc i) cfg (c ∷ cs) h = get_elem?-last i cfg cs (omega (arith, h))

module _ (t : ConfigTexts) where
  further :
      (configs : List Config) (i : ℕ) {l l' : Live}
      → ((cfg : Config) × (get_elem? configs i ≡ some cfg)
          × IsNormalized t cfg
          × Runtime.Reach (next_runtime t cfg) l)
      → Runtime.Step l l'
      → (cfg : Config) × (get_elem? configs i ≡ some cfg)
        × IsNormalized t cfg
        × Runtime.Reach (next_runtime t cfg) l'
  further configs i (cfg, at, normalized, reached) step =
      (cfg, at, normalized, Runtime.next reached step)

  run-IsOrderly :
      {b : Backend} (i : ℕ) (l l' : Live)
      → IsOrderly t b
      → get_elem? b.runtimes i ≡ some l
      → Runtime.Step l l'
      → l'.runtime.stopping ≡ l.runtime.stopping
      → l'.runtime.closed ≡ l.runtime.closed
      → IsOrderly t (record b { runtimes = set_at i l' b.runtimes })
  run-IsOrderly {b} i l l' v at step same same' =
      let f = v.fits i l at in
      place-IsOrderly t i l' b.turn v
        (record {
          closed = λ h. same' ∙ f.closed h;
          active = λ h. same ∙ f.active h;
          stopping = λ h. same ∙ f.stopping h;
          reached = further b.configs i f.reached step;
        })
        (λ j m apart g. g) v.guarded v.shown

  stop_previous-IsOrderly :
      {b : Backend} (p : Purpose) (i : ℕ) (l : Live)
      → IsOrderly t b
      → b.turn ≡ taken p (some i)
      → get_elem? b.runtimes i ≡ some l
      → IsOrderly t (record b {
        runtimes = set_at i (record l { runtime = stop l.runtime }) b.runtimes;
        turn = waiting p i;
      })
  unfolding stop
  stop_previous-IsOrderly {b} p i l v e at =
      let f = v.fits i l at in
      place-IsOrderly t i _ (waiting p i) v
        (record {
          closed = λ h. absurd (h refl);
          active = λ h. cc;
          stopping = λ h. refl;
          reached = further b.configs i f.reached stop_runtime;
        })
        (λ j m apart g. record {
          closed = λ h. g.closed (λ q. h (ap (λ x. holder x b.current) (sym e) ∙ q));
          active = λ h. cc;
          stopping = λ h. absurd (apart cc);
          reached = g.reached;
        })
        (subst (IsGuarded t) e v.guarded) (subst (λ x. IsShown x b.current) e v.shown)

  join_previous-IsOrderly :
      {b : Backend} (fs : FileSystem) (p : Purpose) (i : ℕ) (l : Live)
      → IsOrderly t b
      → b.turn ≡ waiting p i
      → get_elem? b.runtimes i ≡ some l
      → l.runtime.wg ≡ 0
      → IsOrderly t (record b {
        runtimes = set_at i (record l { runtime = finish_close fs l.runtime }) b.runtimes;
        turn = vacant p;
      })
  unfolding finish_close
  join_previous-IsOrderly {b} fs p i l v e at drained =
      let f = v.fits i l at in
      place-IsOrderly t i _ (vacant p) v
        (record {
          closed = λ h. refl;
          active = λ h. cc;
          stopping = λ h. cc;
          reached =
              further b.configs i f.reached (close fs (f.stopping (ap stopped_one e)) drained);
        })
        (λ j m apart g. record {
          closed = λ h. g.closed (λ q.
              (let q' : some i ≡ some j = ap (λ x. holder x b.current) (sym e) ∙ q in apart cc));
          active = λ h. cc;
          stopping = λ h. cc;
          reached = g.reached;
        })
        (subst (IsGuarded t) e v.guarded) (subst (λ x. IsShown x b.current) e v.shown)

  start_next-IsOrderly :
      {b : Backend} (cfg : Config) (client : UpstreamClient)
      → IsOrderly t b
      → b.turn ≡ vacant (replacing cfg client)
      → IsOrderly t (record b {
        runtimes = b.runtimes ++ next_runtime t cfg ∷ [];
        configs = b.configs ++ cfg ∷ [];
        turn = started (length b.runtimes);
      })
  unfolding Runtime.init new_runtime
  start_next-IsOrderly {b} cfg client v e = record {
    fits = λ j m g. elim (get_elem?-append j (next_runtime t cfg) m b.runtimes g) [
      | inl (last, is_new) ↦
          subst (Fits t (b.configs ++ cfg ∷ []) (started (length b.runtimes)) b.current j)
            (sym is_new)
            (record {
              closed = λ h. absurd (h (ap some (sym last)));
              active = λ h. refl;
              stopping = λ h. cc;
              reached = (
                cfg,
                get_elem?-last j cfg b.configs (omega (arith, last, v.paired)),
                subst (IsGuarded t) e v.guarded,
                Runtime.here,
              );
            })
      | inr (before, old) ↦
          let f = v.fits j m old in
          record {
            closed = λ h.
                f.closed
                  (λ q. (let q' : none ≡ some j = ap (λ x. holder x b.current) (sym e) ∙ q in cc));
            active = λ h.
                (let same : length b.runtimes ≡ j = cc in absurd (omega (arith, same, before)));
            stopping = λ h. cc;
            reached = (
              f.reached.0,
              get_elem?-snoc j f.reached.0 cfg b.configs f.reached.1,
              f.reached.2,
              f.reached.3,
            );
          }
    ];
    paired = omega (
      arith,
      v.paired,
      length-append b.configs (cfg ∷ []),
      length-append b.runtimes (next_runtime t cfg ∷ []),
    );
    guarded = tt;
    shown = subst (λ x. IsShown x b.current) e v.shown;
  }

  -- A step that only moves the turn on keeps the runtime that need not be closed.
  moved-IsOrderly :
      {b : Backend} (before turn : Turn) (current : Option ℕ)
      → IsOrderly t b
      → b.turn ≡ before
      → holder turn current ≡ holder before b.current
      → accepting turn current ≡ accepting before b.current
      → stopped_one turn ≡ none
      → (IsGuarded t before → IsGuarded t turn)
      → (IsShown before b.current → IsShown turn current)
      → IsOrderly t (record b { turn = turn; current = current })
  moved-IsOrderly {b} before turn current v e same same' quiet guarded shown =
      turn-IsOrderly t turn current v (same ∙ ap (λ x. holder x b.current) (sym e))
        (same' ∙ ap (λ x. accepting x b.current) (sym e)) quiet
        (guarded (subst (IsGuarded t) e v.guarded))
        (shown (subst (λ x. IsShown x b.current) e v.shown))

  free-IsOrderly :
      {b : Backend} (p : Purpose)
      → IsOrderly t b
      → b.turn ≡ vacant p
      → IsOrderly t (record b { turn = free })
  free-IsOrderly {b} p v e =
      let hidden : b.current ≡ none = subst (λ x. IsShown x b.current) e v.shown in
      moved-IsOrderly (vacant p) free b.current v e hidden hidden refl (λ h. tt) (λ h. tt)

  validate_configuration-IsAccepted :
      (given : Config) (p : Purpose) → validate_configuration t given ≡ ok p → IsAccepted t p
  unfolding validate_configuration
  validate_configuration-IsAccepted given closing h = tt
  validate_configuration-IsAccepted given (replacing cfg client) h =
      elim (Result-cases (normalize_config t.is_blank t.validate_base_url t.absolute given)) [
        | inl (e, failed) ↦ absurd (ground (arith, failed, h))
        | inr (normalized, accepted) ↦
            elim (Option-cases (
              new_upstream_client t.parses normalized.base_url
                normalized.limits.max_archive_bytes)) [
                  | inl missing ↦ absurd (ground (arith, accepted, missing, h))
                  | inr (made, found) ↦
                      let same : normalized ≡ cfg = ground (arith, accepted, found, h) in
                      (given, accepted ∙ ap ok same)
                ]
      ]

  Step-IsOrderly : {b c : Backend} → IsOrderly t b → Step t b c → IsOrderly t c
  Step-IsOrderly {b} v (lock_closing e) =
      moved-IsOrderly free (locked closing) b.current v e refl refl refl (λ h. tt) (λ h. tt)
  Step-IsOrderly {b} v (lock_replacing cfg p valid e) =
      moved-IsOrderly free (locked p) b.current v e refl refl refl
        (λ h. validate_configuration-IsAccepted cfg p valid) (λ h. tt)
  Step-IsOrderly {b} v (take p e) =
      moved-IsOrderly (locked p) (taken p b.current) none v e refl refl refl (λ h. h) (λ h. refl)
  Step-IsOrderly {b} v (skip p e) =
      moved-IsOrderly (taken p none) (vacant p) b.current v e refl refl refl (λ h. h) (λ h. h)
  Step-IsOrderly v (stop_previous p i l e at) = stop_previous-IsOrderly p i l v e at
  Step-IsOrderly v (join_previous fs p i l e at drained) =
      join_previous-IsOrderly fs p i l v e at drained
  Step-IsOrderly {b} v (finish_closing e) = free-IsOrderly closing v e
  Step-IsOrderly {b} v (give_up cfg client e) = free-IsOrderly (replacing cfg client) v e
  Step-IsOrderly v (start_next cfg client e) = start_next-IsOrderly cfg client v e
  Step-IsOrderly {b} v (publish i e) =
      moved-IsOrderly (started i) free (some i) v e refl refl refl (λ h. tt) (λ h. tt)
  Step-IsOrderly v (run i l l' at step same same') = run-IsOrderly i l l' v at step same same'

  pub Reach-IsOrderly : (b : Backend) → Reach t new_backend b → IsOrderly t b
  Reach-IsOrderly b here = new_backend-IsOrderly t
  Reach-IsOrderly b (next before step) = Step-IsOrderly (Reach-IsOrderly _ before) step
