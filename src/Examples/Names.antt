-- ===== src/Examples/Names.antt =====
-- The natural order of two page names.
use bloem_community_crowquil.Prelude.{◌≡◌, refl, Bytes, codes, All, arith}
use bloem_community_crowquil.Prelude.Strconv.Printed.{IsDigit}
use bloem_community_crowquil.Archive.Names.Total.{IsTotalOrder, natural_compare-IsTotalOrder}
use bloem_community_crowquil.Archive.Names.Runs.{value, compare_runs-by_value}
use bloem_community_crowquil.Archive.Names.{
  less, or_else, natural_compare, compare_from, compare_runs, compare_bytes, by_number, run,
  after_run, trim_zeros,
}

abbrev unchanged : Bytes → Bytes
unchanged s = s

abbrev second : Bytes
second = codes "p2"

abbrev tenth : Bytes
tenth = codes "p10"

second_first : natural_compare unchanged second tenth ≡ less
unfolding natural_compare compare_from compare_runs compare_bytes by_number run after_run trim_zeros
second_first = refl

seven_All : All IsDigit (codes "007")
seven_All =
    ((omega arith, omega arith), ((omega arith, omega arith), ((omega arith, omega arith), tt)))

twelve_All : All IsDigit (codes "12")
twelve_All = ((omega arith, omega arith), ((omega arith, omega arith), tt))

compare_runs-by_value_example :
    compare_runs (codes "007") (codes "12")
    ≡ or_else (by_number (value (codes "007")) (value (codes "12"))) (by_number 3 2)
compare_runs-by_value_example =
    compare_runs-by_value (codes "007") (codes "12") seven_All twelve_All

natural_compare-IsTotalOrder_example : IsTotalOrder (natural_compare unchanged)
natural_compare-IsTotalOrder_example = natural_compare-IsTotalOrder unchanged
