-- ===== src/Archive/Readers/Copy.antt =====
-- The loop of `consumeEntry` of internal/archive/archive.go that copies an entry to its temporary file.
pub mod Termination
pub mod Contents
pub mod Written
pub mod Quiet
use bloem_community_crowquil.Prelude.{
  ℕ, zero, suc, ◌+◌, ◌-◌, ◌*◌, ◌^◌, ◌≤◌, ◌<◌, ◌≡◌, refl, Bool, true, false, not, Bytes, List, [],
  Option, none, some, Result, ok, err, length, ltb, ◌==◌, if◌then◌else◌, arith,
}
use bloem_community_crowquil.Archive.Errors.{Error, eof, short_write, is_eof}
use bloem_community_crowquil.Archive.Readers.{World, EntryLimits, entry_read}

abbrev pub buffer_size : ℕ
buffer_size = 2 ^ 20

module _ {S : Type 0} (w : World S) where
  -- Closes the temporary file, whose own error is dropped, and fails.
  unfoldable pub close_with : S → Error → S × Option Error
  close_with s e = ((w.close s).0, some e)

  -- The body of `if n > 0`.
  unfoldable pub store_chunk : S → Bytes → S × Option Error
  store_chunk s got =
      if length got == 0
      then (s, none)
      else let (s', done) = w.check_context s in
        elim done [
          | some e ↦ close_with s' e
          | none ↦
              let (s'', written, failed) = w.write s' got in
              elim failed [
                | some e ↦ close_with s'' e
                | none ↦ if written == length got then (s'', none) else close_with s'' short_write
              ]
        ]

  -- The body of `if readErr != nil`, where the loop ends either way.
  unfoldable pub finish_copy : S → Error → ℕ → S × Result Error ℕ
  finish_copy s read_err size =
      let (s', closed) = w.close s in
      if is_eof read_err
      then elim closed [ some e ↦ (s', err e) | none ↦ (s', ok size) ]
      else (s', err read_err)

  -- The loop on fuel: none when the fuel runs out.
  unfoldable pub copy_entry : ℕ → S → EntryLimits → ℕ → Option ((S × EntryLimits) × Result Error ℕ)
  copy_entry zero s r size = none
  copy_entry (suc fuel) s r size =
      let (s', done) = w.check_context s in
      elim done [
        | some e ↦ some (((close_with s' e).0, r), err e)
        | none ↦
            let ((s1, r'), got, read_err) = entry_read w s' r buffer_size in
            let (s2, failed) = store_chunk s1 got in
            elim failed [
              | some e ↦ some ((s2, r'), err e)
              | none ↦ elim read_err [
                | some e ↦
                    let (s3, out) = finish_copy s2 e (size + length got) in some ((s3, r'), out)
                | none ↦ copy_entry fuel s2 r' (size + length got)
              ]
            ]
      ]
