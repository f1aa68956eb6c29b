-- ===== src/Control.antt =====
-- common/control.cpp: the process that tidies the log directory.
use thirft_proxy.Prelude.{
  ℕ, ◌+◌, ◌%◌, ◌^◌, Bool, true, false, Option, none, some, List, [], ◌∷◌, ◌++◌, ◌==◌, ltb,
  if◌then◌else◌,
}
use thirft_proxy.Text.{Bytes}
use thirft_proxy.Text.Codes.{codes}
use thirft_proxy.ConfigManager.{Cm, config_get_intval}
use thirft_proxy.LogProcessor.{Calendar, DirEntry, TarFiles, do_remove}
use thirft_proxy.LogProcessor.Calls.{Tarred, do_archive}
pub mod Limits

-- `std::min` and `std::max` on `int`, given as bit patterns.
unfoldable pub lt_int : ℕ → ℕ → Bool
lt_int a b = ltb ((a + 2 ^ 31) % 2 ^ 32) ((b + 2 ^ 31) % 2 ^ 32)

unfoldable pub min_int : ℕ → ℕ → ℕ
unfolding lt_int
min_int a b = if lt_int b a then b else a

unfoldable pub max_int : ℕ → ℕ → ℕ
unfolding lt_int
max_int a b = if lt_int a b then b else a

abbrev pub archive_days_key : Bytes
archive_days_key = codes "log_archive_days"

abbrev pub remove_days_key : Bytes
remove_days_key = codes "log_remove_days"

-- `LogProcessor`, the object that `Control` makes.
pub record LogProcessor : Type 0 where
  pub workpath : Bytes
  pub archive_days : ℕ
  pub remove_days : ℕ
  pub tar_files : TarFiles

abbrev log_dir : Bytes
log_dir = codes "/log"

unfoldable pub archive_limit : ℕ → ℕ
unfolding min_int max_int
archive_limit days = max_int 1 (min_int days 28)

unfoldable pub remove_limit : ℕ → ℕ → ℕ
unfolding min_int max_int
remove_limit archive days = max_int archive (min_int days 168)

-- What `Init` makes when there is memory for it; `pwd` is the working directory.
unfoldable pub init : Bool → Cm → Bytes → Option LogProcessor
unfolding config_get_intval archive_limit remove_limit
init false cm pwd = none
init true cm pwd =
    let archive = archive_limit (config_get_intval archive_days_key 7 cm) in
    some (record {
      workpath = pwd ++ log_dir;
      archive_days = archive;
      remove_days = remove_limit archive (config_get_intval remove_days_key 28 cm);
      tar_files = [];
    })

-- What the system answers while the logs are tidied: the directory twice, since files are removed in
-- between, and whether a list of files is written.
pub record Disk : Type 0 where
  pub calendar : Calendar
  pub before_remove : Option (List DirEntry)
  pub after_remove : Option (List DirEntry)
  pub can_write : Bytes → Bool

-- `Process`: the files that are unlinked, and the calls of `tar` with the map after them.
unfoldable pub process : Disk → ℕ → LogProcessor → List Bytes × Tarred
unfolding do_remove do_archive
process disk now p = (
  (do_remove disk.calendar now p.workpath p.remove_days disk.before_remove).1,
  do_archive disk.calendar now p.archive_days p.remove_days p.workpath disk.after_remove
      disk.can_write p.tar_files,
)

-- `TimeEvent` and `TidyLogPath`, called each second: at 19:00 UTC, which is 3:00 in China, the logs are tidied.
unfoldable pub tidy_log_path : Disk → ℕ → LogProcessor → List Bytes × Tarred
unfolding process
tidy_log_path disk now p =
    if now % 86400 == 68400 then process disk now p else ([], ([], p.tar_files))
