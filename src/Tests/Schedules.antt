-- ===== src/Tests/Schedules.antt =====
-- What a synchronization lists and sends, and an upload followed by its conversion.
use google_cloud_storage.Base.{
  ℕ, ◌+◌, ◌*◌, ◌≤◌, ◌<◌, Bytes, codes, same, [], ◌∷◌, ◌++◌, List, Option, none, some, Bool, true,
  false, ◌≡◌, ◌≢◌, ◌⊎◌, ◌↔◌, inl, inr, refl, sym, ap, arith, All, length, is_empty, if◌then◌else◌,
}
use google_cloud_storage.Base.Dict.{Dict, has}
use google_cloud_storage.Base.Result.{Result, ok}
use google_cloud_storage.Strings.Split.{Lacks}
use google_cloud_storage.Time.{day, rv_month}
use google_cloud_storage.Time.Parse.{month_length, instant}
use google_cloud_storage.Synchronizer.Months.{
  in_months, spanned_months, spanned_months_iff, spanned_months_short,
}
use google_cloud_storage.Synchronizer.FileTime.{
  time_from_filename, archive_name, time_from_filename_print,
}
use google_cloud_storage.Synchronizer.Dir.{prepare_dir}
use google_cloud_storage.Synchronizer.Compile.{Entry, compile_dir, compile_dir_sound, IsListing}

-- A month's end: the 30th of April 2022 at 23:00, to two hours later.
abbrev evening : ℕ
evening = instant 2022 4 30 23 0

abbrev night : ℕ
night = instant 2022 5 1 1 0

spanned_months_iff_example :
    (in_months (codes "2022.05") (spanned_months evening night) ≡ true)
    ↔ ((k : ℕ) × (evening + k * day < night) × (rv_month (evening + k * day) ≡ codes "2022.05"))
spanned_months_iff_example = spanned_months_iff evening night (codes "2022.05")

evening_first : evening < night
unfolding instant
evening_first = omega arith

one_day : night ≤ evening + day
unfolding instant
one_day = omega arith

spanned_months_short_example : spanned_months evening night ≡ rv_month evening ∷ []
spanned_months_short_example = spanned_months_short evening night evening_first one_day

april_days : month_length 2022 4 ≡ some 30
unfolding month_length
april_days = refl

name_has_no_dot : Lacks b'.' (codes "updates")
name_has_no_dot = ground arith

name_has_no_slash : Lacks b'/' (codes "updates")
name_has_no_slash = ground arith

end_has_no_dot : Lacks b'.' (codes "bz2")
end_has_no_dot = ground arith

end_has_no_slash : Lacks b'/' (codes "bz2")
end_has_no_slash = ground arith

time_from_filename_print_example :
    time_from_filename
      (codes "rv3/bgpdata" ++ (b'/' ∷ archive_name (codes "updates") (codes "bz2") 2022 4 27 19 0))
    ≡ ok (instant 2022 4 27 19 0)
time_from_filename_print_example =
    time_from_filename_print (codes "rv3/bgpdata") (codes "updates") (codes "bz2") 2022 4 27 19 0 30
      name_has_no_dot name_has_no_slash end_has_no_dot end_has_no_slash (omega arith) (omega arith)
      (omega arith) april_days (omega arith) (omega arith) (omega arith) (omega arith)

-- An FTP site with one collector and one archive.
abbrev top : List Entry
top = record { name = codes "rv3"; is_folder = true } ∷ []

abbrev updates_dir : List Entry
updates_dir = record { name = codes "updates.20220430.2315.bz2"; is_folder = false } ∷ []

abbrev site : Bytes → Result (List Entry)
site path = if same path (codes "/") then ok top else ok updates_dir

abbrev listing : Dict (List Bytes)
listing = (codes "rv3", codes "rv3/bgpdata/2022.04/UPDATES/updates.20220430.2315.bz2" ∷ []) ∷ []

compiled_listing : compile_dir evening night site 1 (codes "2022.04" ∷ []) ≡ ok listing
unfolding compile_dir same prepare_dir google_cloud_storage.Base.Dict.insert
    google_cloud_storage.Strings.FilePath.join_path time_from_filename
    google_cloud_storage.Time.Parse.parse_timestamp
compiled_listing = refl

compile_dir_sound_example :
    (1 ≤ length listing) × All (IsListing evening night site (codes "2022.04" ∷ [])) listing
compile_dir_sound_example =
    compile_dir_sound evening night site 1 (codes "2022.04" ∷ []) listing compiled_listing
