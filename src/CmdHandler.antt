-- ===== src/CmdHandler.antt =====
-- handler/cmd_handler.cpp: the map from command numbers to handlers. A `boost::function` may be
-- empty: `none`.
use thirft_proxy.Prelude.{
  ℕ, ◌≡◌, Option, none, some, List, [], ◌∷◌, arith, ◌==◌, if◌then◌else◌, ◌≢◌,
}

-- The two handlers of the program.
pub data Func : Type 0 where
  tis_proto_handler default_proto_handler : Func

abbrev pub CmdMap : Type 0
CmdMap = List (ℕ × Option Func)

unfoldable pub find_cmd : ℕ → CmdMap → Option (Option Func)
find_cmd cmd [] = none
find_cmd cmd ((key, f) ∷ m) = if key == cmd then some f else find_cmd cmd m

abbrev insert_cmd : ℕ → Option Func → CmdMap → Option (Option Func) → CmdMap
insert_cmd cmd f m none = (cmd, f) ∷ m
insert_cmd cmd f m (some old) = m

-- `insert` keeps the entry that is there.
unfoldable pub register_cmd : ℕ → Option Func → CmdMap → CmdMap
unfolding find_cmd
register_cmd cmd f m = insert_cmd cmd f m (find_cmd cmd m)

abbrev or_default : Option (Option Func) → Func
or_default none = default_proto_handler
or_default (some none) = default_proto_handler
or_default (some (some f)) = f

unfoldable pub get_handler : ℕ → CmdMap → Func
unfolding find_cmd
get_handler cmd m = or_default (find_cmd cmd m)

unfoldable pub destroy_cmds : CmdMap → CmdMap
destroy_cmds m = []

-- The first registration of a command decides its handler, an empty function counting as the default
-- one. A later registration changes nothing, and no registration changes another command.
pub get_handler-register_cmd :
    (cmd other : ℕ) (f : Option Func) (m : CmdMap)
    → ((find_cmd cmd m ≡ none) → get_handler cmd (register_cmd cmd f m) ≡ or_default (some f))
      × ((old : Option Func) → find_cmd cmd m ≡ some old → register_cmd cmd f m ≡ m)
      × (cmd ≢ other → get_handler other (register_cmd cmd f m) ≡ get_handler other m)
unfolding register_cmd get_handler
get_handler-register_cmd cmd other f m =
    ((λ e. rw e (ground arith)), (λ old e. rw e), λ ne. ground arith)
