-- ===== src/ConfigManager/Load.antt =====
-- What the settings of a process are after its configuration is loaded, and after a reload.
use thirft_proxy.Prelude.{
  done, ℕ, suc, ◌≡◌, refl, sym, ap, ◌∙◌, Bool, true, false, All, Option, none, some, List, [], ◌∷◌,
  ◌⊎◌, inl, inr, Bool-cases, Option-cases, if◌then◌else◌,
}
use thirft_proxy.Text.{Bytes, same, same-eq}
use thirft_proxy.Config.{
  ConfigMap, find, absent, unreadable, text, Files, include_word, add_setting, Parsed,
  parse_config_file,
}
use thirft_proxy.Config.Written.{
  Written, comment, blank, words, print, IsWritten, meaning, carry_out, parse_config_file-print,
}
use thirft_proxy.ConfigManager.{
  ConfigManager, new_config_manager, set_loaded, load_file, load_settings, reload_settings,
  str_or_default, int_or_default, config_get_str_val, config_get_int_val, Cm, load_config,
  reload_config, config_get_intval, config_get_strval,
}

-- The value of the first line that sets the key.
pub first_setting : Bytes → List Written → Option Bytes
unfolding same
first_setting key [] = none
first_setting key (comment s ∷ ws) = first_setting key ws
first_setting key (blank s ∷ ws) = first_setting key ws
first_setting key (words indent k gap val tail ∷ ws) =
    if same k key then some val else first_setting key ws

abbrev pub IsSetting : Written → Type 0
IsSetting (comment s) = Unit {0}
IsSetting (blank s) = Unit {0}
IsSetting (words indent key gap val tail) = same include_word key ≡ false

abbrev or_else : Option Bytes → Option Bytes → Option Bytes
or_else none o = o
or_else (some v) o = some v

or_else-none : (o : Option Bytes) → or_else o none ≡ o
or_else-none none = refl
or_else-none (some v) = refl

find-add_setting :
    (key val k : Bytes) (m : ConfigMap)
    → find k (add_setting key val m) ≡ or_else (find k m) (if same key k then some val else none)
unfolding add_setting find
find-add_setting key val k m = elim (Option-cases (find key m)) [
  | inl missing ↦ rw missing (elim (Bool-cases (same key k)) [
    | inl eq ↦ rw (eq, sym (same-eq key k eq), missing) refl
    | inr ne ↦ rw ne (sym (or_else-none (find k m)))
  ])
  | inr (old, found) ↦ rw found (elim (Bool-cases (same key k)) [
    | inl eq ↦ rw (eq, sym (same-eq key k eq), found) refl
    | inr ne ↦ rw ne (sym (or_else-none (find k m)))
  ])
]

-- Both maps answer alike once the lines are carried out.
abbrev Carried : (Bytes → ConfigMap → Parsed) → List Written → ConfigMap → Type 0
Carried parse ws m =
    (n : ConfigMap) × ((carry_out parse ws m ≡ done (true, n))
      × ((key : Bytes) → find key n ≡ or_else (find key m) (first_setting key ws)))

or_else_twice :
    (o : Option Bytes) (v : Bytes) (b : Bool) (p : Option Bytes)
    → or_else (or_else o (if b then some v else none)) p ≡ or_else o (if b then some v else p)
or_else_twice none v true p = refl
or_else_twice none v false p = refl
or_else_twice (some w) v b p = refl

carry_out-settings :
    (parse : Bytes → ConfigMap → Parsed) (ws : List Written) (m : ConfigMap)
    → All IsSetting ws
    → Carried parse ws m
unfolding carry_out meaning first_setting find add_setting
carry_out-settings parse [] m h = (m, (refl, λ key. sym (or_else-none (find key m))))
carry_out-settings parse (comment s ∷ ws) m h = carry_out-settings parse ws m h.1
carry_out-settings parse (blank s ∷ ws) m h = carry_out-settings parse ws m h.1
carry_out-settings parse (words indent k gap val tail ∷ ws) m h =
    let (n, (e, same_as)) = carry_out-settings parse ws (add_setting k val m) h.1 in
    (
      n,
      (
        rw h.0 e,
        λ key.
            same_as key
            ∙ (ap (λ o. or_else o (first_setting key ws)) (find-add_setting k val key m)
                ∙ or_else_twice (find key m) val (same k key) (first_setting key ws)),
      ),
    )

-- The functions of `server.cpp` answer as the lines say.
abbrev pub Answers : List Written → Cm → Type 0
Answers ws cm =
    (key : Bytes) (val : Option Bytes) (n : ℕ)
    → (config_get_strval key val cm ≡ str_or_default val (first_setting key ws))
      × (config_get_intval key n cm ≡ int_or_default n (first_setting key ws))

-- A process that loads a file of comments, empty lines and settings, none of which is the word
-- `include`, succeeds, and then answers each key with the value of the first line that sets it, and
-- with the caller's default if there is none; as a number it gives what `atoi` makes of that value.
pub get-load_config :
    (depth : ℕ) (files : Files) (source : Bytes) (ws : List Written)
    → files source ≡ text (print ws)
    → All IsWritten ws
    → All IsSetting ws
    → (cm : Cm) × ((load_config true (suc depth) files source none ≡ done (true, cm))
        × Answers ws cm)
unfolding load_config load_settings load_file new_config_manager set_loaded config_get_strval
    config_get_intval config_get_str_val config_get_int_val
get-load_config depth files source ws e hw hs =
    let (m, (run, answers)) = carry_out-settings (parse_config_file depth files) ws [] hs in
    (
      some (record { config_map = m; loaded = true }),
      (
        rw (parse_config_file-print depth files source ws [] e hw, run) refl,
        λ key val n. (ap (str_or_default val) (answers key), ap (int_or_default n) (answers key)),
      ),
    )

-- When a configuration was loaded, a reload of such a file succeeds, and the answers are those of
-- the new file, also for a key that only the old one sets; a reload of a file that cannot be opened
-- or read fails and changes nothing.
pub get-reload_config :
    (depth : ℕ) (files : Files) (source gone : Bytes) (ws : List Written) (c : ConfigManager)
    → c.loaded ≡ true
    → files source ≡ text (print ws)
    → (files gone ≡ absent) ⊎ (files gone ≡ unreadable)
    → All IsWritten ws
    → All IsSetting ws
    → ((cm : Cm) × ((reload_config (suc depth) files source (some c) ≡ done (true, cm))
          × Answers ws cm))
      × (reload_config (suc depth) files gone (some c) ≡ done (false, some c))
unfolding reload_config reload_settings config_get_strval config_get_intval config_get_str_val
    config_get_int_val parse_config_file
get-reload_config depth files source gone ws c on e missing hw hs =
    let (m, (run, answers)) = carry_out-settings (parse_config_file depth files) ws [] hs in
    (
      (
        some (record c { config_map = m }),
        (
          rw (on, parse_config_file-print depth files source ws [] e hw, run) refl,
          λ key val n. (rw (on, answers key) refl, rw (on, answers key) refl),
        ),
      ),
      rw on (elim missing [ inl none_there ↦ rw none_there refl | inr bad ↦ rw bad refl ]),
    )
