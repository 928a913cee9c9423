-- ===== src/Archive/Entries/Rar.antt =====
-- Lemmas on the loop of `extractRAR` of internal/archive/archive.go.
use mathlib.Core.Path.{subst}
use bloem_community_crowquil.Prelude.{
  ℕ, zero, suc, ◌+◌, ◌≤◌, ◌<◌, ◌≡◌, ◌≢◌, List, none, some, Result, ok, arith, Option-cases,
  Result-cases, inl, inr,
}
use bloem_community_crowquil.Archive.Errors.{Error}
use bloem_community_crowquil.Archive.Readers.{World, IsReader}
use bloem_community_crowquil.Archive.Entries.{
  PageCandidate, Extraction, Disk, consume_entry, append_candidate, RarHeader, refuse_rar, rar_loop,
}
use bloem_community_crowquil.Archive.Entries.Bounds.{
  IsWithin, IsWithin-append, IsWithin-more, consume_entry-IsCharged,
}

module _ {S : Type 0} (w : World S) (d : Disk S) (next : S → S × Result Error RarHeader)
    (max_entries max : ℕ) where
  refuse_rar-limit :
      (index : ℕ) (h : RarHeader)
      → (refuse_rar w d next max_entries max index h ≡ none → index + 1 ≤ max_entries)
        × (refuse_rar w d next max_entries max index h ≡ some none → index + 1 ≤ max_entries)
  unfolding refuse_rar
  refuse_rar-limit index h = ground arith

  -- The loop over a RAR archive's headers ends with any positive fuel that together with the index
  -- is above the entry limit, however many headers the archive has.
  pub rar_loop-ends :
      (fuel index : ℕ) (x : Extraction S) (total : ℕ) (cs : List PageCandidate)
      → max_entries < fuel + index
      → 0 < fuel
      → rar_loop w d next max_entries max fuel index x total cs ≢ none
  unfolding rar_loop
  rar_loop-ends zero index x total cs enough some_fuel h = omega arith
  rar_loop-ends (suc fuel) index x total cs enough some_fuel h =
      let s = (w.check_context x.files).0 in
      let s' = (next s).0 in
      elim (Result-cases (next s).1) [
        | inl (e, stopped) ↦ ground (arith, stopped, h)
        | inr (header, read) ↦
            let limit = refuse_rar-limit index header in
            let o = consume_entry w d max (record x { files = s' }) header.name total in
            let skip = rar_loop-ends fuel (index + 1) (record x { files = s' }) total cs in
            elim (Result-cases o.1) [
              | inl (e, failed) ↦ ground (arith, read, failed, h, limit, skip)
              | inr (c, processed) ↦
                  let rest = rar_loop-ends fuel (index + 1) o.0.0 o.0.1 (append_candidate cs c) in
                  ground (arith, read, processed, h, limit, skip, rest)
            ]
      ]

  module _ (reader : IsReader w) where
    pub rar_loop-IsWithin :
        (fuel index : ℕ) (x : Extraction S) (start total : ℕ) (cs out : List PageCandidate)
        (x' : Extraction S) (left : ℕ)
        → index ≤ max_entries
        → IsWithin index max start total cs
        → rar_loop w d next max_entries max fuel index x total cs ≡ some ((x', left), ok out)
        → IsWithin max_entries max start left out
    unfolding rar_loop
    rar_loop-IsWithin zero index x start total cs out x' left below v h = absurd (ground arith)
    rar_loop-IsWithin (suc fuel) index x start total cs out x' left below v h =
        let s = (w.check_context x.files).0 in
        let s' = (next s).0 in
        elim (Option-cases (w.check_context x.files).1) [
          | inr (e, done) ↦ absurd (ground arith)
          | inl free ↦ elim (Result-cases (next s).1) [
            | inl (e, stopped) ↦
                let same : cs ≡ out = ground (arith, free, stopped, h) in
                let left_same : total ≡ left = ground (arith, free, stopped, h) in
                subst (λ z. IsWithin max_entries max start z out) left_same
                  (subst (IsWithin max_entries max start total) same
                    (IsWithin-more max_entries below v))
            | inr (header, read) ↦
                let limit = refuse_rar-limit index header in
                elim (Option-cases (refuse_rar w d next max_entries max index header)) [
                  | inr (some e, refused) ↦ absurd (ground (arith, free, read, refused, h))
                  | inr (none, skipped) ↦
                      rar_loop-IsWithin fuel (index + 1) (record x { files = s' }) start total cs
                        out x' left (limit.1 skipped) (IsWithin-more (index + 1) (omega arith) v)
                        (ground (arith, free, read, skipped, h))
                  | inl wanted ↦
                      let o = consume_entry w d max (record x { files = s' }) header.name total in
                      elim (Result-cases o.1) [
                        | inl (e, failed) ↦ absurd (ground (arith, free, read, wanted, failed, h))
                        | inr (c, processed) ↦
                            let charged =
                              consume_entry-IsCharged w d reader max (record x { files = s' })
                                header.name total c processed in
                            rar_loop-IsWithin fuel (index + 1) o.0.0 start o.0.1
                              (append_candidate cs c) out x' left (limit.0 wanted)
                              (IsWithin-append index max start total o.0.1 cs c v charged)
                              (ground (arith, free, read, wanted, processed, h))
                      ]
                ]
          ]
        ]
