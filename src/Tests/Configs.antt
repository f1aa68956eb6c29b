-- ===== src/Tests/Configs.antt =====
-- Configurations on concrete files.
use thirft_proxy.Prelude.{
  done, ℕ, ◌<◌, ◌≡◌, refl, Bool, true, false, All, none, some, List, [], ◌∷◌, arith, inl, subst,
}
use thirft_proxy.Text.{Bytes, same}
use thirft_proxy.Text.Codes.{codes}
use thirft_proxy.Config.{
  ConfigMap, absent, text, Files, find, lines, parse_line, include, add_setting, parse_config_file,
  is_delimiter, strtok, skip_delimiters, token, parse_lines,
}
use thirft_proxy.Config.Written.{
  Written, comment, blank, words, print, IsWritten, carry_out, parse_config_file-print,
}
use thirft_proxy.Config.Keeps.{Keeps, parse_config_file-Keeps}
use thirft_proxy.Config.Depth.{IsRanked, parse_config_file-Ends}
use thirft_proxy.ConfigManager.{ConfigManager, Cm, load_config, reload_config}
use thirft_proxy.ConfigManager.Load.{IsSetting, Answers, get-load_config, get-reload_config}

abbrev pub some_lines : List Written
some_lines =
    comment (codes "x") ∷ words [] (codes "p") (codes "=") (codes "8") [] ∷ blank (codes " ") ∷ []

abbrev pub some_files : Files
some_files [] = absent
some_files (c ∷ []) = text (print some_lines)
some_files (c ∷ d ∷ name) = absent

some_lines-IsWritten : All IsWritten some_lines
unfolding is_delimiter
some_lines-IsWritten = (
  ((ground arith, ground arith), tt),
  (
    (
      (tt, (((λ e. cc), (((ground arith, ground arith), tt), (refl, tt))), ground arith)),
      (
        ((λ e. cc), (refl, tt)),
        (((λ e. cc), (((ground arith, ground arith), tt), (refl, tt))), (tt, tt)),
      ),
    ),
    ((refl, tt), tt),
  ),
)

some_lines-IsSetting : All IsSetting some_lines
unfolding same
some_lines-IsSetting = (tt, (refl, (tt, tt)))

parse_config_file-print_example :
    parse_config_file 1 some_files (codes "c") []
    ≡ carry_out (parse_config_file 0 some_files) some_lines []
parse_config_file-print_example =
    parse_config_file-print 0 some_files (codes "c") some_lines [] refl some_lines-IsWritten

get-load_config_example :
    (cm : Cm) × ((load_config true 1 some_files (codes "c") none ≡ done (true, cm))
      × Answers some_lines cm)
get-load_config_example =
    get-load_config 0 some_files (codes "c") some_lines refl some_lines-IsWritten
      some_lines-IsSetting

abbrev old_manager : ConfigManager
old_manager = record { config_map = (codes "q", codes "1") ∷ []; loaded = true }

get-reload_config_example :
    ((cm : Cm) × ((reload_config 1 some_files (codes "c") (some old_manager) ≡ done (true, cm))
        × Answers some_lines cm))
    × (reload_config 1 some_files (codes "cc") (some old_manager) ≡ done (false, some old_manager))
get-reload_config_example =
    get-reload_config 0 some_files (codes "c") (codes "cc") some_lines old_manager refl refl
      (inl refl) some_lines-IsWritten some_lines-IsSetting

-- A later line does not change the value.
parsed_once :
    parse_config_file 1 some_files (codes "c") ((codes "p", codes "9") ∷ [])
    ≡ done (true, (codes "p", codes "9") ∷ [])
unfolding parse_config_file parse_lines lines print parse_line strtok skip_delimiters token
    is_delimiter add_setting find same
parsed_once = refl

parse_config_file-Keeps_example : Keeps ((codes "p", codes "9") ∷ []) ((codes "p", codes "9") ∷ [])
parse_config_file-Keeps_example =
    parse_config_file-Keeps 1 some_files (codes "c") ((codes "p", codes "9") ∷ [])
      (true, (codes "p", codes "9") ∷ []) parsed_once

-- One file that includes another one.
abbrev two_files : Files
two_files [] = absent
two_files (c ∷ []) = text (codes "include bb")
two_files (c ∷ d ∷ []) = text (codes "p 8")
two_files (c ∷ d ∷ e ∷ name) = absent

abbrev two_ranks : Bytes → ℕ
two_ranks [] = 0
two_ranks (c ∷ []) = 1
two_ranks (c ∷ d ∷ name) = 0

text_inj : {s t : Bytes} → text s ≡ text t → s ≡ t
text_inj e = cc

include_inj : {s t : Bytes} → include s ≡ include t → s ≡ t
include_inj e = cc

two_files-IsRanked : IsRanked two_files two_ranks
unfolding lines parse_line strtok skip_delimiters token is_delimiter same
two_files-IsRanked [] s e = absurd cc
two_files-IsRanked (c ∷ []) s e =
    subst
      (λ t.
        All (λ l. (other : Bytes) → parse_line l ≡ include other → two_ranks other < 1) (lines t))
      (text_inj e) ((λ other eq. subst (λ o. two_ranks o < 1) (include_inj eq) (omega arith)), tt)
two_files-IsRanked (c ∷ d ∷ []) s e =
    subst
      (λ t.
        All (λ l. (other : Bytes) → parse_line l ≡ include other → two_ranks other < 0) (lines t))
      (text_inj e) ((λ other eq. absurd cc), tt)
two_files-IsRanked (c ∷ d ∷ f ∷ name) s e = absurd cc

parse_config_file-Ends_example :
    (r : Bool × ConfigMap) × (parse_config_file 2 two_files (codes "a") [] ≡ done r)
parse_config_file-Ends_example =
    parse_config_file-Ends 2 two_files two_ranks (codes "a") [] two_files-IsRanked (omega arith)

included : parse_config_file 2 two_files (codes "a") [] ≡ done (true, (codes "p", codes "8") ∷ [])
unfolding parse_config_file parse_lines lines parse_line strtok skip_delimiters token is_delimiter
    add_setting find same
included = refl
