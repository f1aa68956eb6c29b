-- ===== src/LogProcessor/Calls.antt =====
-- `TarMapFiles` and `DoArchive`: the calls of `tar`.
use thirft_proxy.Prelude.{
  ℕ, zero, suc, Bool, true, false, not, ◌||◌, Option, List, [], ◌∷◌, ◌++◌, if◌then◌else◌,
}
use thirft_proxy.Text.{Bytes}
use thirft_proxy.Handler.Text.{decimal}
use thirft_proxy.LogProcessor.{Calendar, DirEntry, TarFiles, tar_gz, sort_files_to_map}

-- A call of `tar`: the archive's name and the list of files that it reads.
pub record TarCall : Type 0 where
  pub archive_name : Bytes
  pub day_files : Bytes

unfoldable pub join_lines : List Bytes → Bytes
join_lines [] = []
join_lines (s ∷ ss) = s ++ b'\n' ∷ join_lines ss

abbrev pub is_empty : Bytes → Bool
is_empty [] = true
is_empty (c ∷ s) = false

abbrev pub Tarred : Type 0
Tarred = List TarCall × TarFiles

abbrev pub with_call : TarCall → Tarred → Tarred
with_call call (calls, kept) = (call ∷ calls, kept)

abbrev pub with_kept : ℕ × List Bytes → Tarred → Tarred
with_kept day (calls, kept) = (calls, day ∷ kept)

abbrev pub tar_call : ℕ × List Bytes → TarCall
tar_call (date, names) = record {
  archive_name = decimal date ++ tar_gz;
  day_files = join_lines names;
}

-- `can_write` says whether the list of files can be written. A day whose list is not written stays.
unfoldable pub tar_loop : ℕ → (Bytes → Bool) → TarFiles → Tarred
unfolding join_lines
tar_loop zero can_write m = ([], m)
tar_loop (suc count) can_write [] = ([], [])
tar_loop (suc count) can_write (day ∷ m) =
    let rest = tar_loop count can_write m in
    if is_empty (join_lines day.1) || not (can_write (join_lines day.1))
    then with_kept day rest
    else with_call (tar_call day) rest

abbrev pub max_sort_day : ℕ
max_sort_day = 60

-- `TarMapFiles`: the calls, and what stays in the map.
unfoldable pub tar_map_files : (Bytes → Bool) → TarFiles → Tarred
unfolding tar_loop
tar_map_files can_write m = tar_loop max_sort_day can_write m

-- `DoArchive`
unfoldable pub do_archive :
    Calendar
    → (now archive_days remove_days : ℕ) → Bytes
    → Option (List DirEntry)
    → (Bytes → Bool)
    → TarFiles
    → Tarred
unfolding sort_files_to_map tar_map_files
do_archive cal now a r workpath dir can_write m =
    tar_map_files can_write (sort_files_to_map cal now a r workpath dir m)
