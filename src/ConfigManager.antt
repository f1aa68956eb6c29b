-- ===== src/ConfigManager.antt =====
-- common/config_manager.h and common/file_config_manager.cpp: the object that keeps the settings,
-- and the functions of common/server.cpp that use the process's one such object.
use thirft_proxy.Prelude.{
  Outcome, done, ◌>>=◌, ℕ, Bool, true, false, Option, none, some, List, [], ◌∷◌, if◌then◌else◌,
}
use thirft_proxy.Text.{Bytes, same, atoi}
use thirft_proxy.Config.{ConfigMap, Files, find, parse_config_file}
pub mod Load

pub record ConfigManager : Type 0 where
  pub config_map : ConfigMap
  pub loaded : Bool

unfoldable pub new_config_manager : ConfigManager
new_config_manager = record { config_map = []; loaded = false }

unfoldable pub set_loaded : ConfigManager → ConfigManager
set_loaded c = record c { loaded = true }

abbrev keep_parsed : ConfigManager → Bool × ConfigMap → Bool × ConfigManager
keep_parsed c (ok, m) = (ok, record c { config_map = m })

-- `_LoadConfig`: the map is the parsed one also when the file is not read to its end.
unfoldable pub load_file : ℕ → Files → Bytes → ConfigManager → Outcome (Bool × ConfigManager)
load_file depth files source c =
    parse_config_file depth files source [] >>= λ r. done (keep_parsed c r)

abbrev mark_loaded : Bool × ConfigManager → Bool × ConfigManager
mark_loaded (true, c) = (true, set_loaded c)
mark_loaded (false, c) = (false, c)

-- `LoadConfig`
unfoldable pub load_settings : ℕ → Files → Bytes → ConfigManager → Outcome (Bool × ConfigManager)
unfolding load_file set_loaded
load_settings depth files source c = load_file depth files source c >>= λ r. done (mark_loaded r)

abbrev replace_map : ConfigManager → Bool × ConfigMap → Bool × ConfigManager
replace_map c (true, m) = (true, record c { config_map = m })
replace_map c (false, m) = (false, c)

-- `ReloadConfig`
unfoldable pub reload_settings : ℕ → Files → Bytes → ConfigManager → Outcome (Bool × ConfigManager)
reload_settings depth files source c =
    parse_config_file depth files source [] >>= λ r. done (replace_map c r)

-- A `const char *` that may be null.
abbrev pub str_or_default : Option Bytes → Option Bytes → Option Bytes
str_or_default val none = val
str_or_default val (some v) = some v

unfoldable pub config_get_str_val : Bytes → Option Bytes → ConfigManager → Option Bytes
unfolding find
config_get_str_val key val c = str_or_default val (find key c.config_map)

abbrev pub int_or_default : ℕ → Option Bytes → ℕ
int_or_default val none = val
int_or_default val (some v) = atoi v

unfoldable pub config_get_int_val : Bytes → ℕ → ConfigManager → ℕ
unfolding find atoi
config_get_int_val key val c = int_or_default val (find key c.config_map)

unfoldable pub erase_key : Bytes → ConfigMap → ConfigMap
unfolding same
erase_key key [] = []
erase_key key ((k, v) ∷ m) = if same k key then erase_key key m else (k, v) ∷ erase_key key m

unfoldable pub set_config_map : Bytes → Bytes → ConfigManager → ConfigManager
unfolding erase_key
set_config_map key val c = record c { config_map = (key, val) ∷ erase_key key c.config_map }

-- The pointer `cm`, which starts null.
abbrev pub Cm : Type 0
Cm = Option ConfigManager

abbrev stored : Bool × ConfigManager → Bool × Cm
stored (ok, c) = (ok, some c)

-- `room` says whether there is memory for a new object.
unfoldable pub load_config : Bool → ℕ → Files → Bytes → Cm → Outcome (Bool × Cm)
unfolding load_settings new_config_manager
load_config room depth files source (some c) =
    if c.loaded
    then done (true, some c)
    else (load_settings depth files source c >>= λ r. done (stored r))
load_config true depth files source none =
    load_settings depth files source new_config_manager >>= λ r. done (stored r)
load_config false depth files source none = done (false, none)

unfoldable pub reload_config : ℕ → Files → Bytes → Cm → Outcome (Bool × Cm)
unfolding reload_settings
reload_config depth files source none = done (false, none)
reload_config depth files source (some c) =
    if c.loaded
    then (reload_settings depth files source c >>= λ r. done (stored r))
    else done (false, some c)

unfoldable pub config_get_intval : Bytes → ℕ → Cm → ℕ
unfolding config_get_int_val
config_get_intval key val none = val
config_get_intval key val (some c) = if c.loaded then config_get_int_val key val c else val

unfoldable pub config_get_strval : Bytes → Option Bytes → Cm → Option Bytes
unfolding config_get_str_val
config_get_strval key val none = val
config_get_strval key val (some c) = if c.loaded then config_get_str_val key val c else val
