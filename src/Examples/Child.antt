-- ===== src/Examples/Child.antt =====
-- A child process that extracts a small archive, with a plain text in place of JSON.
use bloem_community_crowquil.Prelude.{
  ℕ, zero, suc, ◌≡◌, refl, ap, ◌∙◌, Bool, true, Bytes, List, [], ◌∷◌, Option, none, some, codes,
  arith, drop, map, sym,
}
use bloem_community_crowquil.Archive.Pages.{Page}
use bloem_community_crowquil.Archive.Extract.{extract}
use bloem_community_crowquil.Silo.Extractor.{
  Process, extract_arguments, Resource, apply_extraction_resource_limits, run_extractor_child,
}
use bloem_community_crowquil.Main.{Plugin}
use bloem_community_crowquil.Main.Flags.{default_flags, parse_flags}
use bloem_community_crowquil.Main.Arguments.{AreInt64, parse_flags-extract_arguments}
use bloem_community_crowquil.Main.Child.{
  as_text, Child, child_process, reported, run_extractor_child-extract,
}
use bloem_community_crowquil.Examples.Extract.{Site, limits, environment, one_entry}

-- A field ends with a zero, and its bytes are one greater than they were.
write_field : Bytes → Bytes → Bytes
write_field [] rest = 0 ∷ rest
write_field (c ∷ s) rest = suc c ∷ write_field s rest

abbrev push : ℕ → List Bytes → List Bytes
push c [] = []
push c (s ∷ fields) = (c ∷ s) ∷ fields

read_fields : Bytes → List Bytes
read_fields [] = []
read_fields (zero ∷ s) = [] ∷ read_fields s
read_fields (suc c ∷ s) = push c (read_fields s)

read_fields-write_field : (s rest : Bytes) → read_fields (write_field s rest) ≡ s ∷ read_fields rest
unfolding read_fields write_field
read_fields-write_field [] rest = refl
read_fields-write_field (c ∷ s) rest = ap (push c) (read_fields-write_field s rest)

abbrev write_page : Page → Bytes → Bytes
write_page p rest =
    write_field p.name
      (write_field p.file (write_field (p.size ∷ []) (write_field p.media_type rest)))

write_all : List Page → Bytes
write_all [] = []
write_all (p ∷ pages) = write_page p (write_all pages)

group_pages : List Bytes → List Page
group_pages (name ∷ file ∷ (size ∷ []) ∷ media_type ∷ fields) =
    record { name = name; file = file; size = size; media_type = media_type } ∷ group_pages fields
group_pages _ = []

abbrev read_pages : Bytes → Option (List Page)
read_pages s = some (group_pages (read_fields s))

read_fields-write_page :
    (p : Page) (rest : Bytes)
    → read_fields (write_page p rest)
      ≡ p.name ∷ p.file ∷ (p.size ∷ []) ∷ p.media_type ∷ read_fields rest
read_fields-write_page p rest = simp read_fields-write_field

group_pages-write_all : (pages : List Page) → group_pages (read_fields (write_all pages)) ≡ pages
unfolding group_pages write_all read_fields
group_pages-write_all [] = refl
group_pages-write_all (p ∷ pages) =
    ap group_pages (read_fields-write_page p (write_all pages))
    ∙ ap (◌∷◌ p) (group_pages-write_all pages)

abbrev child : Child Site
child = record { files = one_entry; output = []; code = 0 }

abbrev set_limit : Site → Resource → ℕ → Site × Bool
set_limit s resource n = (s, true)

abbrev plugin : Plugin (Child Site) Bytes
plugin = record {
  manifest = none;
  marshal = some;
  print_line = λ c text. c;
  serve = λ c manifest. c;
}

limits_AreInt64 : AreInt64 limits
limits_AreInt64 = record {
  entries = (omega arith, omega arith);
  page = (omega arith, omega arith);
  total = (omega arith, omega arith);
  archive = (omega arith, omega arith);
  dictionary = (omega arith, omega arith);
}

limits_applied : (apply_extraction_resource_limits set_limit child.files).1 ≡ true
unfolding apply_extraction_resource_limits
limits_applied = refl

abbrev process : Process (Child Site)
process = child_process environment set_limit write_all read_pages (λ s. s) plugin

map-as_text :
    (pages : List Page)
    → map (as_text environment set_limit write_all read_pages (λ s. s) plugin) pages ≡ pages
map-as_text [] = refl
map-as_text (page ∷ pages) = ap (◌∷◌ page) (map-as_text pages)

run_extractor_child-extract_example :
    ((run_extractor_child process child (codes "in") (codes "out") limits).1
      ≡ reported environment set_limit write_all read_pages
          (λ s. s)
          plugin
          (extract environment (codes "in") (codes "out") limits one_entry).1)
    × ((run_extractor_child process child (codes "in") (codes "out") limits).0.files
        ≡ (extract environment (codes "in") (codes "out") limits one_entry).0.files)
unfolding apply_extraction_resource_limits
run_extractor_child-extract_example =
    run_extractor_child-extract environment set_limit write_all read_pages (λ s. s) plugin child
      (codes "in") (codes "out") limits limits_AreInt64 (λ p. omega (arith, p))
      (λ p. omega (arith, p))
      (λ pages. ap some (group_pages-write_all pages ∙ sym (map-as_text pages))) limits_applied

parse_flags-extract_arguments_example :
    parse_flags (drop 1 (extract_arguments (codes "-in") (codes "--") limits)) none default_flags
    ≡ some (record { input_path = codes "-in"; output_dir = codes "--"; limits = limits }, [])
parse_flags-extract_arguments_example =
    parse_flags-extract_arguments (codes "-in") (codes "--") limits limits_AreInt64
