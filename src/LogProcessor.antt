-- ===== src/LogProcessor.antt =====
-- common/log_processor.cpp and common/file_lister.cpp: old log files are removed, and those of each
-- day that is over put in an archive. A directory is the list of its entries as `readdir` gives them.
use thirft_proxy.Prelude.{
  ℕ, zero, suc, ◌+◌, ◌-◌, ◌*◌, ◌/◌, ◌%◌, ◌^◌, Bool, true, false, not, ◌&&◌, ◌||◌, Option, none,
  some, List, [], ◌∷◌, ◌++◌, ◌==◌, ltb, leb, if◌then◌else◌,
}
use thirft_proxy.Text.{Bytes, same, atoi}
use thirft_proxy.Text.Codes.{codes}
use thirft_proxy.Handler.Text.{decimal}
pub mod Due
pub mod Remove
pub mod Archive
pub mod Calls
pub mod Tar

-- `regexec` gives where eight digits stand in a name, `mktime` the time of a date's midnight and
-- `day_start` the midnight before a time, both in local time.
pub record Calendar : Type 0 where
  pub regexec : Bytes → Option (ℕ × ℕ)
  pub mktime : (year month day : ℕ) → ℕ
  pub day_start : ℕ → ℕ

pub data FileType : Type 0 where
  regular unknown other : FileType

-- `found` says whether `stat` answers for the file.
pub record DirEntry : Type 0 where
  pub d_name : Bytes
  pub d_type : FileType
  pub found : Bool

unfoldable pub take_bytes : ℕ → Bytes → Bytes
take_bytes zero s = []
take_bytes (suc n) [] = []
take_bytes (suc n) (c ∷ s) = c ∷ take_bytes n s

unfoldable pub drop_bytes : ℕ → Bytes → Bytes
drop_bytes zero s = s
drop_bytes (suc n) [] = []
drop_bytes (suc n) (c ∷ s) = drop_bytes n s

abbrev date_at : Bytes → ℕ → Option (ℕ × ℕ) → ℕ
date_at name result none = result
date_at name result (some (so, eo)) = atoi (take_bytes (eo - so) (drop_bytes so name))

-- The caller's variable keeps its value when the name has no date.
unfoldable pub get_file_date : Calendar → Bytes → ℕ → ℕ
unfolding take_bytes drop_bytes atoi
get_file_date cal name result = date_at name result (cal.regexec name)

unfoldable pub get_timestamp_by_date : Calendar → ℕ → ℕ
get_timestamp_by_date cal date = cal.mktime (date / 10000) (date / 100 % 100) (date % 100) % 2 ^ 32

-- Whole days, forward or, when the second time is before the first day, back.
pub data Days : Type 0 where
  forward back : ℕ → Days

unfoldable pub get_day_distance : Calendar → ℕ → ℕ → Days
get_day_distance cal from to =
    if leb (cal.day_start from) to
    then forward ((to - cal.day_start from) / 86400)
    else back ((cal.day_start from - to) / 86400)

-- The two comparisons with a number of days that is not negative.
abbrev exceeds : Days → ℕ → Bool
exceeds (forward n) limit = ltb limit n
exceeds (back n) limit = false

abbrev is_below : Days → ℕ → Bool
is_below (forward n) limit = ltb n limit
is_below (back n) limit = if n == 0 then ltb 0 limit else true

unfoldable pub is_date : ℕ → Bool
is_date date = leb 20000000 date && leb date 30000000

abbrev pub is_regular : FileType → Bool
is_regular regular = true
is_regular unknown = false
is_regular other = false

-- The age of a date.
unfoldable pub is_older : Calendar → ℕ → ℕ → ℕ → Bool
unfolding get_day_distance get_timestamp_by_date
is_older cal now days date =
    exceeds (get_day_distance cal (get_timestamp_by_date cal date) now) days

abbrev pub path : Bytes → Bytes → Bytes
path workpath name = workpath ++ b'/' ∷ name

-- The loop of `DoRemove`: the names that it unlinks. `date` lives across the rounds.
unfoldable pub remove_loop : Calendar → ℕ → Bytes → ℕ → ℕ → List DirEntry → List Bytes
unfolding get_file_date is_date is_older
remove_loop cal now workpath days date [] = []
remove_loop cal now workpath days date (e ∷ es) =
    if is_regular e.d_type && e.found
    then (let next = get_file_date cal (path workpath e.d_name) date in
        let rest = remove_loop cal now workpath days next es in
        if is_date next && is_older cal now days next then e.d_name ∷ rest else rest)
    else remove_loop cal now workpath days date es

-- What `DoRemove` answers, 0 or -1, and the names that it unlinks.
unfoldable pub do_remove : Calendar → ℕ → Bytes → ℕ → Option (List DirEntry) → ℕ × List Bytes
unfolding remove_loop
do_remove cal now workpath days none = (2 ^ 32 - 1, [])
do_remove cal now workpath days (some es) = (0, remove_loop cal now workpath days 0 es)

-- `FileLister::Next`, called until it answers false; a directory that was not opened has no files.
unfoldable pub list_files : List DirEntry → List Bytes
list_files [] = []
list_files (e ∷ es) =
    let rest = list_files es in
    elim e.d_type [ regular ↦ e.d_name ∷ rest | unknown ↦ e.d_name ∷ rest | other ↦ rest ]

abbrev pub files_in : Option (List DirEntry) → List Bytes
files_in none = []
files_in (some es) = list_files es

unfoldable pub starts_with : Bytes → Bytes → Bool
starts_with [] s = true
starts_with (c ∷ p) [] = false
starts_with (c ∷ p) (d ∷ s) = (c == d) && starts_with p s

-- `filename.find(part) != npos`
unfoldable pub contains : Bytes → Bytes → Bool
unfolding starts_with
contains part [] = starts_with part []
contains part (c ∷ s) = starts_with part (c ∷ s) || contains part s

abbrev pub tar_gz : Bytes
tar_gz = codes ".tar.gz"

-- The order of `std::string`.
unfoldable pub is_less : Bytes → Bytes → Bool
is_less s [] = false
is_less [] (d ∷ t) = true
is_less (c ∷ s) (d ∷ t) = ltb c d || ((c == d) && is_less s t)

unfoldable pub insert_name : Bytes → List Bytes → List Bytes
unfolding is_less same
insert_name s [] = s ∷ []
insert_name s (t ∷ ts) =
    let rest = insert_name s ts in
    if same s t then t ∷ ts else if is_less s t then s ∷ t ∷ ts else t ∷ rest

-- Dates in order, each with a set of names in order.
abbrev pub TarFiles : Type 0
TarFiles = List (ℕ × List Bytes)

unfoldable pub insert_file : ℕ → Bytes → TarFiles → TarFiles
unfolding insert_name
insert_file date s [] = (date, s ∷ []) ∷ []
insert_file date s ((d, names) ∷ m) =
    let rest = insert_file date s m in
    if date == d
    then (d, insert_name s names) ∷ m
    else if ltb date d
    then (date, s ∷ []) ∷ (d, names) ∷ m
    else (d, names) ∷ rest

-- A file is due when its date is over for more days than the first limit and at most the second.
unfoldable pub is_due : Calendar → (now archive_days remove_days : ℕ) → Bytes → Bool
unfolding get_file_date is_date is_older contains get_day_distance get_timestamp_by_date
is_due cal now archive_days remove_days name =
    let date = get_file_date cal name 0 in
    if contains tar_gz name
    then false
    else is_date date
      && (is_older cal now archive_days date
          && is_below (get_day_distance cal (get_timestamp_by_date cal date) now) (remove_days + 1))

unfoldable pub sort_files :
    Calendar → (now archive_days remove_days : ℕ) → List Bytes → TarFiles → TarFiles
unfolding is_due insert_file get_file_date
sort_files cal now a r [] m = m
sort_files cal now a r (name ∷ names) m =
    if is_due cal now a r name
    then sort_files cal now a r names (insert_file (get_file_date cal name 0) name m)
    else sort_files cal now a r names m

-- `SortFilesToMap`
unfoldable pub sort_files_to_map :
    Calendar
    → (now archive_days remove_days : ℕ) → Bytes
    → Option (List DirEntry)
    → TarFiles
    → TarFiles
unfolding sort_files list_files
sort_files_to_map cal now a r [] dir m = m
sort_files_to_map cal now a r (c ∷ workpath) dir m = sort_files cal now a r (files_in dir) m
