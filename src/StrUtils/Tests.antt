-- ===== src/StrUtils/Tests.antt =====
-- The string helpers of src/dbpub.cpp at concrete inputs.
use dbsqlapi.Prelude.{ℕ, ◌≡◌, refl, some, codes, take}
use dbsqlapi.StrUtils.{is_blank, trim}
use dbsqlapi.StrUtils.Trim.{Trims, trim-Trims}

trim_sample : trim (some (codes "  a b \n")) ≡ some (codes "  a b", 2)
unfolding trim is_blank
trim_sample = refl

trim-Trims_example :
    (n : ℕ) × (k : ℕ) × (trim (some (codes " a ")) ≡ some (take n (codes " a "), k))
    × Trims (codes " a ") k n
trim-Trims_example = trim-Trims (codes " a ")
