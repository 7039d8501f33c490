-- ===== src/Synchronizer/FileTime.antt =====
-- `timeFromFilename` of pkg/synchronizer/synchronizer.go.
use google_cloud_storage.Base.{
  ℕ, zero, suc, ◌<◌, ◌≤◌, ◌/◌, ◌-◌, All, get_elem?, All-append, Bytes, codes, List, [], ◌∷◌, ◌++◌,
  Option, none, some, ◌≡◌, refl, arith, append_assoc, le→leb, lt→ltb,
}
use google_cloud_storage.Base.Result.{errorf, Result, ok, err}
use google_cloud_storage.Strings.Split.{split, split-append, split_of_Lacks, split_last, Lacks}
use google_cloud_storage.Strings.FilePath.{base_name, last_of}
use google_cloud_storage.Time.{padded, month_lengths}
use google_cloud_storage.Time.Parse.{parse_timestamp, digits_at, month_length, instant}

abbrev pub parsed : Option ℕ → Result ℕ
parsed none = err (errorf "failed to parse timestamp %s")
parsed (some t) = ok t

-- The four parts of a name, of which the middle ones are the date and the time.
unfoldable pub time_of_parts : List Bytes → Result ℕ
time_of_parts (a ∷ date ∷ clock ∷ b ∷ []) =
    parsed (parse_timestamp (date ++ (b'.' ∷ (clock ++ codes " UTC"))))
time_of_parts _ = err (errorf "bad filename %s")

unfoldable pub time_from_filename : Bytes → Result ℕ
unfolding time_of_parts base_name split
time_from_filename name = time_of_parts (split b'.' (base_name name))

last_of-split : (d p : Bytes) (dir : List Bytes) → last_of p (dir ++ (d ∷ [])) ≡ d
unfolding last_of
last_of-split d p [] = refl
last_of-split d p (q ∷ dir) = last_of-split d q dir

-- The name of a file in a directory.
base_name-append : (dir file : Bytes) → Lacks b'/' file → base_name (dir ++ (b'/' ∷ file)) ≡ file
unfolding base_name
base_name-append dir file h =
    rw (split_last b'/' dir file h) (last_of-split file [] (split b'/' dir))

base_name_of_Lacks : (file : Bytes) → Lacks b'/' file → base_name file ≡ file
unfolding base_name last_of
base_name_of_Lacks file h = rw (split_of_Lacks b'/' file h)

-- The directory of a file makes no difference.
pub time_from_filename-dir :
    (dir file : Bytes)
    → Lacks b'/' file
    → time_from_filename (dir ++ (b'/' ∷ file)) ≡ time_from_filename file
unfolding time_from_filename
time_from_filename-dir dir file h = rw (base_name-append dir file h, base_name_of_Lacks file h)

time_of_four :
    (a date clock b : Bytes)
    → Lacks b'.' a
    → Lacks b'.' date
    → Lacks b'.' clock
    → Lacks b'.' b
    → time_of_parts (split b'.' (a ++ (b'.' ∷ (date ++ (b'.' ∷ (clock ++ (b'.' ∷ b)))))))
      ≡ parsed (parse_timestamp (date ++ (b'.' ∷ (clock ++ codes " UTC"))))
unfolding time_of_parts
time_of_four a date clock b ha hd hc hb = rw (
  split-append b'.' a _ ha,
  split-append b'.' date _ hd,
  split-append b'.' clock _ hc,
  split_of_Lacks b'.' b hb,
)

-- The bytes of a number with leading zeros are digits.
padded-Lacks : (sep : ℕ) (k n : ℕ) → sep < b'0' → Lacks sep (padded k n)
unfolding padded
padded-Lacks sep zero n h = tt
padded-Lacks sep (suc k) n h =
    All-append _ (padded k (n / 10)) _ (padded-Lacks sep k (n / 10) h) (omega arith)

-- `YYYYMMDD` and `HHMM`.
abbrev pub date_text : ℕ → ℕ → ℕ → Bytes
date_text y mo d = padded 4 y ++ (padded 2 mo ++ padded 2 d)

abbrev pub clock_text : ℕ → ℕ → Bytes
clock_text h mi = padded 2 h ++ padded 2 mi

date_text-Lacks : (sep y mo d : ℕ) → sep < b'0' → Lacks sep (date_text y mo d)
date_text-Lacks sep y mo d h =
    All-append _ (padded 4 y) _ (padded-Lacks sep 4 y h)
      (All-append _ (padded 2 mo) _ (padded-Lacks sep 2 mo h) (padded-Lacks sep 2 d h))

clock_text-Lacks : (sep h mi : ℕ) → sep < b'0' → Lacks sep (clock_text h mi)
clock_text-Lacks sep h mi lt =
    All-append _ (padded 2 h) _ (padded-Lacks sep 2 h lt) (padded-Lacks sep 2 mi lt)

-- `a.YYYYMMDD.HHMM.b`
abbrev pub archive_name : Bytes → Bytes → ℕ → ℕ → ℕ → ℕ → ℕ → Bytes
archive_name a b y mo d h mi =
    a ++ (b'.' ∷ (date_text y mo d ++ (b'.' ∷ (clock_text h mi ++ (b'.' ∷ b)))))

archive_name-Lacks :
    (a b : Bytes) (y mo d h mi : ℕ)
    → Lacks b'/' a
    → Lacks b'/' b
    → Lacks b'/' (archive_name a b y mo d h mi)
archive_name-Lacks a b y mo d h mi ha hb = All-append _ a _ ha (
  omega arith,
  All-append _ (date_text y mo d) _ (date_text-Lacks b'/' y mo d (omega arith)) (
    omega arith,
    All-append _ (clock_text h mi) _ (clock_text-Lacks b'/' h mi (omega arith)) (omega arith, hb),
  ),
)

two_digits : (v : ℕ) (rest : Bytes) → v < 100 → digits_at 2 0 (padded 2 v ++ rest) ≡ some (v, rest)
unfolding digits_at padded
two_digits v rest h = ground arith

four_digits :
    (v : ℕ) (rest : Bytes) → v < 10000 → digits_at 4 0 (padded 4 v ++ rest) ≡ some (v, rest)
unfolding digits_at padded
four_digits v rest h = ground arith

get_elem?_le : (ls : List ℕ) (i l : ℕ) → All (λ x. x ≤ 31) ls → get_elem? ls i ≡ some l → l ≤ 31
get_elem?_le [] i l h e = cc
get_elem?_le (x ∷ ls) zero l h e = ground arith
get_elem?_le (x ∷ ls) (suc i) l h e = get_elem?_le ls i l h.1 e

month_length_le : (y mo l : ℕ) → month_length y mo ≡ some l → l ≤ 31
unfolding month_length
month_length_le y mo l e = get_elem?_le (month_lengths y) (mo - 1) l (ground arith) e

-- A date that exists and a time of day are read back from their print.
pub parse_timestamp_print :
    (y mo d h mi l : ℕ)
    → y < 10000
    → 1 ≤ mo
    → mo ≤ 12
    → month_length y mo ≡ some l
    → 1 ≤ d
    → d ≤ l
    → h < 24
    → mi < 60
    → parse_timestamp (date_text y mo d ++ (b'.' ∷ (clock_text h mi ++ codes " UTC")))
      ≡ some (instant y mo d h mi)
unfolding parse_timestamp
parse_timestamp_print y mo d h mi l hy mo1 mo12 len d1 dl h24 mi60 =
    let short = month_length_le y mo l len in
    let tail = b'.' ∷ (clock_text h mi ++ codes " UTC") in
    rw (
      append_assoc (padded 4 y) (padded 2 mo ++ padded 2 d) tail,
      append_assoc (padded 2 mo) (padded 2 d) tail,
      append_assoc (padded 2 h) (padded 2 mi) (codes " UTC"),
      four_digits y _ hy,
      two_digits mo _ (omega arith),
      le→leb 1 mo mo1,
      le→leb mo 12 mo12,
      two_digits d _ (omega arith),
      two_digits h _ (omega arith),
      lt→ltb h 24 h24,
      two_digits mi _ (omega arith),
      lt→ltb mi 60 mi60,
      len,
      le→leb 1 d d1,
      le→leb d l dl,
    )

-- A name of four parts, of which the outer two have no dot and no slash and the inner two print a
-- date that exists, in a year below 10000, and a time of day, gives the instant that they spell,
-- in whatever directory it lies.
pub time_from_filename_print :
    (dir a b : Bytes) (y mo d h mi l : ℕ)
    → Lacks b'.' a
    → Lacks b'/' a
    → Lacks b'.' b
    → Lacks b'/' b
    → y < 10000
    → 1 ≤ mo
    → mo ≤ 12
    → month_length y mo ≡ some l
    → 1 ≤ d
    → d ≤ l
    → h < 24
    → mi < 60
    → time_from_filename (dir ++ (b'/' ∷ archive_name a b y mo d h mi)) ≡ ok (instant y mo d h mi)
unfolding time_from_filename
time_from_filename_print dir a b y mo d h mi l da sa db sb hy mo1 mo12 len d1 dl h24 mi60 = rw (
  base_name-append dir (archive_name a b y mo d h mi) (archive_name-Lacks a b y mo d h mi sa sb),
  time_of_four a (date_text y mo d) (clock_text h mi) b da
      (date_text-Lacks b'.' y mo d (omega arith)) (clock_text-Lacks b'.' h mi (omega arith)) db,
  parse_timestamp_print y mo d h mi l hy mo1 mo12 len d1 dl h24 mi60,
)
