-- ===== src/Archive/Names/Total.antt =====
-- `naturalCompare` of internal/archive/archive.go as an order of names.
use bloem_community_crowquil.Prelude.{◌≡◌, ◌≢◌, ◌↔◌, Bytes}
use bloem_community_crowquil.Archive.Names.{Three, same, greater, natural_compare}
use bloem_community_crowquil.Archive.Names.Order.{flip, natural_compare-flip, natural_compare_iff}
use bloem_community_crowquil.Archive.Names.Transitive.{natural_compare_trans}

pub record IsTotalOrder (compare : Bytes → Bytes → Three) : Type 0 where
  pub flips : (a b : Bytes) → compare b a ≡ flip (compare a b)
  pub ties : (a b : Bytes) → (compare a b ≡ same) ↔ (a ≡ b)
  pub transitive :
      (a b c : Bytes) → compare a b ≢ greater → compare b c ≢ greater → compare a c ≢ greater

-- The natural order is total, whatever the conversion to lower case is: two names compare from one
-- side as the opposite of how they compare from the other; they tie exactly where they are equal;
-- and where a first name is not greater than a second one and that one not greater than a third,
-- the first is not greater than the third.
pub natural_compare-IsTotalOrder :
    (to_lower : Bytes → Bytes) → IsTotalOrder (natural_compare to_lower)
natural_compare-IsTotalOrder to_lower = record {
  flips = natural_compare-flip to_lower;
  ties = natural_compare_iff to_lower;
  transitive = natural_compare_trans to_lower;
}
