-- ===== src/Config.antt =====
-- common/file_config_manager.cpp and common/config_manager.h: the configuration file and the map of
-- its settings. `std::map` has one entry for a key.
use thirft_proxy.Prelude.{
  Outcome, done, fault, ◌>>=◌, ℕ, zero, suc, Bool, true, false, ◌||◌, Option, none, some, List, [],
  ◌∷◌, ◌==◌, if◌then◌else◌,
}
use thirft_proxy.Text.{Bytes, same}
use thirft_proxy.Text.Codes.{codes}
pub mod Written
pub mod Keeps
pub mod Depth

abbrev pub ConfigMap : Type 0
ConfigMap = List (Bytes × Bytes)

unfoldable pub find : Bytes → ConfigMap → Option Bytes
find key [] = none
find key ((k, v) ∷ m) = if same k key then some v else find key m

-- A file: not there, there but not read (or not held in memory), or its bytes.
pub data File : Type 0 where
  absent unreadable : File
  text : Bytes → File

abbrev pub Files : Type 0
Files = Bytes → File

abbrev longer : ℕ → List Bytes → List Bytes
longer c [] = (c ∷ []) ∷ []
longer c (l ∷ ls) = (c ∷ l) ∷ ls

-- What the rounds of the loop find from `start` to `end`: `strchr` stops at a newline or at a 0, and
-- with no newline the round is the last one.
unfoldable pub lines : Bytes → List Bytes
lines [] = []
lines (c ∷ s) =
    let rest = lines s in
    if c == b'\n' then [] ∷ rest else if c == 0 then [] ∷ [] else longer c rest

unfoldable pub is_delimiter : ℕ → Bool
is_delimiter c = (c == b'=') || (c == b' ') || (c == 9)

unfoldable pub skip_delimiters : Bytes → Bytes
unfolding is_delimiter
skip_delimiters [] = []
skip_delimiters (c ∷ s) = if is_delimiter c then skip_delimiters s else c ∷ s

abbrev longer_token : ℕ → Bytes × Bytes → Bytes × Bytes
longer_token c (t, rest) = (c ∷ t, rest)

-- The bytes before a delimiter, and those after it.
unfoldable pub token : Bytes → Bytes × Bytes
unfolding is_delimiter
token [] = ([], [])
token (c ∷ s) = let rest = token s in if is_delimiter c then ([], s) else longer_token c rest

abbrev token_at : Bytes → Option (Bytes × Bytes)
token_at [] = none
token_at (c ∷ s) = some (token (c ∷ s))

-- `strtok`: a token and where it left off, or null.
unfoldable pub strtok : Bytes → Option (Bytes × Bytes)
unfolding skip_delimiters token
strtok s = token_at (skip_delimiters s)

-- A line: one that does nothing, an assignment, or the name of a file to read in its place.
pub data Line : Type 0 where
  ignored : Line
  assignment : Bytes → Bytes → Line
  include : Bytes → Line

abbrev pub include_word : Bytes
include_word = codes "include"

abbrev with_value : Bytes → Option (Bytes × Bytes) → Line
with_value key none = ignored
with_value key (some (val, rest)) =
    if same include_word key then include val else assignment key val

abbrev pub with_key : Option (Bytes × Bytes) → Line
with_key none = ignored
with_key (some (key, rest)) = with_value key (strtok rest)

unfoldable pub parse_line : Bytes → Line
unfolding strtok
parse_line [] = ignored
parse_line (c ∷ s) = if c == b'#' then ignored else with_key (strtok (c ∷ s))

abbrev insert_new : Bytes → Bytes → ConfigMap → Option Bytes → ConfigMap
insert_new key val m none = (key, val) ∷ m
insert_new key val m (some old) = m

-- A key that is there keeps its value.
unfoldable pub add_setting : Bytes → Bytes → ConfigMap → ConfigMap
unfolding find
add_setting key val m = insert_new key val m (find key m)

-- The answer of `ParseConfigFile`, and the map it leaves.
abbrev pub Parsed : Type 0
Parsed = Outcome (Bool × ConfigMap)

abbrev pub apply_line : (Bytes → ConfigMap → Parsed) → Line → ConfigMap → Parsed
apply_line parse ignored m = done (true, m)
apply_line parse (assignment key val) m = done (true, add_setting key val m)
apply_line parse (include name) m = parse name m

abbrev pub unless_failed : (ConfigMap → Parsed) → Bool × ConfigMap → Parsed
unless_failed next (true, m) = next m
unless_failed next (false, m) = done (false, m)

-- The loop ends early when an included file fails.
unfoldable pub parse_lines : (Bytes → ConfigMap → Parsed) → List Bytes → ConfigMap → Parsed
unfolding add_setting parse_line
parse_lines parse [] m = done (true, m)
parse_lines parse (l ∷ ls) m =
    apply_line parse (parse_line l) m >>= unless_failed (parse_lines parse ls)

abbrev pub parse_file : (Bytes → ConfigMap → Parsed) → File → ConfigMap → Parsed
parse_file parse absent m = done (false, m)
parse_file parse unreadable m = done (false, m)
parse_file parse (text s) m = parse_lines parse (lines s) m

-- The fuel is the depth that the stack has room for.
unfoldable pub parse_config_file : ℕ → Files → Bytes → ConfigMap → Parsed
unfolding parse_lines lines
parse_config_file zero files name m = fault
parse_config_file (suc depth) files name m =
    parse_file (parse_config_file depth files) (files name) m
