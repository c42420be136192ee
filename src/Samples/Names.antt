-- ===== src/Samples/Names.antt =====
-- Names below a local public suffix.
use desec_stack.Common.{
  ◌≡◌, refl, inl, inr, Bool, true, false, Option, some, List, [], ◌∷◌, nat_eq, string_eq, pair_eq,
  option_eq, ok,
}
use desec_stack.Naming.{
  Name, OwnedZone, has_suffix, longest_local, public_suffix, private_domains,
  is_covered_by_foreign_zone, covers_foreign_zone, is_reserved, is_free, is_registrable,
}
use desec_stack.Naming.Registration.{Meets, is_registrable-Meets}

abbrev sample_psl : Name → Option (Name × Bool)
sample_psl name = some ("io" ∷ [], false)

abbrev locals : List Name
locals = ("dedyn" ∷ "io" ∷ []) ∷ []

abbrev parent_zone : OwnedZone
parent_zone = record { name = "dedyn" ∷ "io" ∷ []; owner = 2 }

abbrev neighbour_zone : OwnedZone
neighbour_zone = record { name = "x" ∷ "b" ∷ "dedyn" ∷ "io" ∷ []; owner = 3 }

abbrev sample_zones : List OwnedZone
sample_zones = parent_zone ∷ neighbour_zone ∷ []

abbrev wanted : Name
wanted = "a" ∷ "dedyn" ∷ "io" ∷ []

wanted_free : is_registrable sample_psl locals sample_zones (some 1) wanted ≡ ok true
unfolding is_registrable is_reserved is_free public_suffix longest_local has_suffix
    is_covered_by_foreign_zone covers_foreign_zone private_domains
wanted_free = refl

-- `b.dedyn.io` would cover the zone of another user, `autoconfig.dedyn.io` is reserved.
covering_refused :
    is_registrable sample_psl locals sample_zones (some 1) ("b" ∷ "dedyn" ∷ "io" ∷ []) ≡ ok false
unfolding is_registrable is_reserved is_free public_suffix longest_local has_suffix
    is_covered_by_foreign_zone covers_foreign_zone private_domains
covering_refused = refl

autoconfig_refused :
    is_registrable sample_psl locals [] (some 1) ("autoconfig" ∷ "dedyn" ∷ "io" ∷ []) ≡ ok false
unfolding is_registrable is_reserved is_free public_suffix longest_local has_suffix
    is_covered_by_foreign_zone covers_foreign_zone private_domains
autoconfig_refused = refl

is_registrable-Meets_example :
    ¬ (Meets (public_suffix sample_psl locals wanted) wanted neighbour_zone.name)
is_registrable-Meets_example =
    is_registrable-Meets sample_psl locals sample_zones (some 1) wanted wanted_free neighbour_zone
      (inr (inl refl)) refl
