-- ===== src/Examples/Start.antt =====
-- The start of a cache in a root that has the marker, one directory of its own and another one.
use bloem_community_crowquil.Prelude.{Bool, true, false, codes, FilePath, [], ◌∷◌, none, some}
use bloem_community_crowquil.Prelude.Int.{pos}
use bloem_community_crowquil.Silo.Cache.State.{rel_below}
use bloem_community_crowquil.Silo.Cache.Start.{RootSystem, present, created, owner_contents}

-- A file system is the set of its paths.
abbrev Files : Type 0
Files = FilePath → Bool

abbrev without : FilePath → Files → Files
without path s p = elim (rel_below path p) [ none ↦ s p | some rest ↦ false ]

abbrev system : RootSystem Files
system = record {
  make_root = λ s. (s, true);
  root_is_no_symlink = λ s. (s, some true);
  root_is_dir = λ s. (s, some true);
  protect_root = λ s. (s, true);
  lock_root = λ s. (s, true);
  list_root = λ s. (
    s,
    some (
        record { name = codes ".entry-1"; is_dir = true }
        ∷ record { name = codes "other"; is_dir = true }
        ∷ []),
  );
  lstat_marker = λ s. (s, present (record { is_regular = true; size = pos 26 }));
  open_marker = λ s. (s, true);
  read_marker = λ s limit. (s, some owner_contents);
  close_marker = λ s. (s, true);
  protect_marker = λ s. (s, true);
  create_marker = λ s. (s, created);
  write_marker = λ s contents. (s, true);
  remove_marker = λ s. s;
  remove_all = λ s path. (without path s, true);
}
