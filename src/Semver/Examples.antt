-- ===== src/Semver/Examples.antt =====
-- Releases compared at concrete inputs.
use sightpane.Prelude.{◌≡◌, refl, Ordering}
use sightpane.Prelude.Int.{pos}
use sightpane.Prelude.Text.{codes}
use sightpane.Semver.{compare_versions}
use sightpane.Semver.Order.{flip, flip-compare_versions}
use sightpane.Semver.Numeric.{Chains, IsPlain, compare_versions_trans}

newer_patch : compare_versions (codes "v1.2.10+b7") (codes " 1.2.9") ≡ Ordering.gt
unfolding compare_versions
newer_patch = refl

release_candidate : compare_versions (codes "1.0.0-rc1") (codes "1.0") ≡ Ordering.lt
unfolding compare_versions
release_candidate = refl

-- With a part that is no number the answers can go round in a circle.
mixed_cycle :
    (compare_versions (codes "2") (codes "10") ≡ Ordering.lt)
    × (compare_versions (codes "10") (codes "1a") ≡ Ordering.lt)
    × (compare_versions (codes "1a") (codes "2") ≡ Ordering.lt)
unfolding compare_versions
mixed_cycle = (refl, refl, refl)

flip-compare_versions_example :
    compare_versions (codes "1.0") (codes "1.0-rc1")
    ≡ flip (compare_versions (codes "1.0-rc1") (codes "1.0"))
flip-compare_versions_example = flip-compare_versions (codes "1.0-rc1") (codes "1.0")

v1_9-IsPlain : IsPlain (codes "1.9")
unfolding compare_versions
v1_9-IsPlain = record {
  nonempty = refl;
  numeric = ((pos 1, refl), ((pos 9, refl), tt));
  final = refl;
}

v1_10-IsPlain : IsPlain (codes "v1.10")
unfolding compare_versions
v1_10-IsPlain = record {
  nonempty = refl;
  numeric = ((pos 1, refl), ((pos 10, refl), tt));
  final = refl;
}

v2-IsPlain : IsPlain (codes "2")
unfolding compare_versions
v2-IsPlain = record { nonempty = refl; numeric = ((pos 2, refl), tt); final = refl }

compare_versions_trans_example :
    Chains
      (compare_versions (codes "1.9") (codes "v1.10"))
      (compare_versions (codes "v1.10") (codes "2"))
      (compare_versions (codes "1.9") (codes "2"))
compare_versions_trans_example =
    compare_versions_trans (codes "1.9") (codes "v1.10") (codes "2") v1_9-IsPlain v1_10-IsPlain
      v2-IsPlain
