-- ===== src/Tests/Times.antt =====
-- Instants, months and file names of pkg/synchronizer/synchronizer.go.
use google_cloud_storage.Base.{codes, ◌*◌, ◌+◌, ◌≡◌, refl, some, none}
use google_cloud_storage.Time.{second, rv_month}
use google_cloud_storage.Time.Parse.{parse_timestamp}

april :
    parse_timestamp (codes "20220427.1900 UTC") ≡ some ((738637 * 24 * 3600 + 19 * 3600) * second)
unfolding parse_timestamp
april = refl

bad_day : parse_timestamp (codes "20220431.1900 UTC") ≡ none
unfolding parse_timestamp
bad_day = refl

april_month : rv_month ((738637 * 24 * 3600 + 19 * 3600) * second) ≡ codes "2022.04"
unfolding rv_month
april_month = refl
