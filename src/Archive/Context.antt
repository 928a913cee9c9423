-- ===== src/Archive/Context.antt =====
-- `contextFile` and `contextReaderAt` of internal/archive/archive.go: a file or reader whose operations
-- first ask the context whether it is done.
use bloem_community_crowquil.Prelude.{Option, none, some, Result, err}
use bloem_community_crowquil.Archive.Errors.{Error}

-- `Read`, `ReadAt`, `Seek` and `Stat` all have this form; `operation` is the file's own.
unfoldable pub with_context {ℓ κ} :
    {S : Type ℓ} {A : Type κ}
    → (S → S × Option Error)
    → (S → S × Result Error A)
    → S
    → S × Result Error A
with_context check_context operation s =
    let (s', done) = check_context s in elim done [ some e ↦ (s', err e) | none ↦ operation s' ]
