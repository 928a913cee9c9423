-- ===== src/Silo/Cache/Start/Owned.antt =====
-- Lemmas on the root that a cache in internal/silo/cache.go takes as its own.
use bloem_community_crowquil.Prelude.{
  ℕ, zero, suc, ◌+◌, ◌≡◌, refl, ap, ◌⊎◌, inl, inr, true, Bytes, List, [], ◌∷◌, Option, none, some,
  length, bytes_eq_sound, arith,
}
use bloem_community_crowquil.Silo.Cache.State.{FileInfo}
use bloem_community_crowquil.Silo.Cache.Start.{
  owner_contents, Marker, present, absent, unknown, Creation, created, already_there, failed, Item,
  RootSystem, is_expected, check_marker, fill_marker, ensure_owned_root,
}

pub marker_cases :
    (m : Marker) → ((info : FileInfo) × (m ≡ present info)) ⊎ ((m ≡ absent) ⊎ (m ≡ unknown))
marker_cases (present info) = inl (info, refl)
marker_cases absent = inr (inl refl)
marker_cases unknown = inr (inr refl)

pub creation_cases : (c : Creation) → (c ≡ created) ⊎ ((c ≡ already_there) ⊎ (c ≡ failed))
creation_cases created = inl refl
creation_cases already_there = inr (inl refl)
creation_cases failed = inr (inr refl)

pub listing_cases :
    (o : Option (List Item))
    → (o ≡ some []) ⊎ ((o ≡ none) ⊎ ((item : Item) × (rest : List Item) × (o ≡ some (item ∷ rest))))
listing_cases none = inr (inl refl)
listing_cases (some []) = inl refl
listing_cases (some (item ∷ rest)) = inr (inr (item, rest, refl))

module _ {S : Type 0} (sys : RootSystem S) where
  -- The root has the plugin's marker, or was empty when the plugin put it there.
  pub data IsOwned : Type 0 where
    marked :
        (s s' : S) (info : FileInfo) (limit : ℕ)
        → (sys.lstat_marker s).1 ≡ present info
        → info.is_regular ≡ true
        → (sys.read_marker s' limit).1 ≡ some owner_contents
        → IsOwned
    made :
        (s s' s'' : S)
        → (sys.list_root s).1 ≡ some []
        → (sys.create_marker s').1 ≡ created
        → (sys.write_marker s'' owner_contents).1 ≡ true
        → IsOwned

  is_expected-contents : (o : Option Bytes) → is_expected o ≡ true → o ≡ some owner_contents
  unfolding is_expected
  is_expected-contents none h = absurd (ground arith)
  is_expected-contents (some contents) h = ap some (bytes_eq_sound contents owner_contents h)

  check_marker-read :
      (s : S) (info : FileInfo)
      → (check_marker sys s info).1 ≡ true
      → (info.is_regular ≡ true)
        × (is_expected (sys.read_marker (sys.open_marker s).0 (length owner_contents + 1)).1 ≡ true)
  unfolding check_marker
  check_marker-read s info h = ground (arith, h)

  fill_marker-written :
      (s : S) → (fill_marker sys s).1 ≡ true → (sys.write_marker s owner_contents).1 ≡ true
  unfolding fill_marker
  fill_marker-written s h = ground (arith, h)

  pub ensure_owned_root-IsOwned :
      (fuel : ℕ) (s : S) → (ensure_owned_root sys fuel s).1 ≡ true → IsOwned
  unfolding ensure_owned_root
  ensure_owned_root-IsOwned zero s h = absurd (ground arith)
  ensure_owned_root-IsOwned (suc fuel) s h =
      let s1 = (sys.lstat_marker s).0 in
      let s2 = (sys.list_root s1).0 in
      let s3 = (sys.create_marker s2).0 in
      elim (marker_cases (sys.lstat_marker s).1) [
        | inl (info, is_present) ↦
            let (regular, expected) = check_marker-read s1 info (ground (arith, is_present, h)) in
            marked s (sys.open_marker s1).0 info (length owner_contents + 1) is_present regular
              (is_expected-contents _ expected)
        | inr (inr is_unknown) ↦ absurd (ground (arith, is_unknown, h))
        | inr (inl is_absent) ↦ elim (listing_cases (sys.list_root s1).1) [
          | inr (inl unread) ↦ absurd (ground (arith, is_absent, unread, h))
          | inr (inr (item, rest, used)) ↦ absurd (ground (arith, is_absent, used, h))
          | inl is_empty ↦ elim (creation_cases (sys.create_marker s2).1) [
            | inl is_created ↦
                made s1 s2 s3 is_empty is_created
                  (fill_marker-written s3 (ground (arith, is_absent, is_empty, is_created, h)))
            | inr (inl exists) ↦
                ensure_owned_root-IsOwned fuel s3 (ground (arith, is_absent, is_empty, exists, h))
            | inr (inr failure) ↦ absurd (ground (arith, is_absent, is_empty, failure, h))
          ]
        ]
      ]
