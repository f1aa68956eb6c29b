-- ===== src/Config/Written.antt =====
-- What the parser makes of a file that is written line by line.
use thirft_proxy.Prelude.{
  done, fault, stuck, Option, Bool-cases, Option-cases, inl, inr, Bool, ◌>>=◌, ℕ, suc, ◌≡◌, refl,
  ap, ◌∙◌, ◌≢◌, true, false, All, All-append, none, some, List, [], ◌∷◌, ◌++◌, arith, ◌==◌,
  if◌then◌else◌,
}
use thirft_proxy.Text.{Bytes, same}
use thirft_proxy.Text.Codes.{codes}
use thirft_proxy.Config.{
  ConfigMap, find, add_setting, text, Files, lines, is_delimiter, skip_delimiters, token, strtok,
  Line, ignored, assignment, include, include_word, parse_line, with_key, Parsed, apply_line,
  unless_failed, parse_lines, parse_config_file,
}

-- A line of a file: a comment, only delimiters, or two words with what stands around them.
pub data Written : Type 0 where
  comment blank : Bytes → Written
  words : (indent key gap val tail : Bytes) → Written

abbrev pub show : Written → Bytes
show (comment s) = b'#' ∷ s
show (blank s) = s
show (words indent key gap val tail) = indent ++ (key ++ (gap ++ (val ++ tail)))

unfoldable pub print : List Written → Bytes
print [] = []
print (w ∷ ws) = show w ++ b'\n' ∷ print ws

abbrev IsText : Bytes → Type 0
IsText = All (λ c. (c ≢ b'\n') × (c ≢ 0))

abbrev IsGap : Bytes → Type 0
IsGap = All (λ c. is_delimiter c ≡ true)

abbrev IsWord : Bytes → Type 0
IsWord s = (s ≢ []) × (IsText s × All (λ c. is_delimiter c ≡ false) s)

-- Nothing, or a delimiter and whatever follows.
abbrev StartsGap : Bytes → Type 0
StartsGap [] = Unit {0}
StartsGap (c ∷ s) = is_delimiter c ≡ true

abbrev IsUnmarked : Bytes → Type 0
IsUnmarked [] = Unit {0}
IsUnmarked (c ∷ s) = c ≢ b'#'

abbrev pub IsWritten : Written → Type 0
IsWritten (comment s) = IsText s
IsWritten (blank s) = IsGap s
IsWritten (words indent key gap val tail) =
    (IsGap indent × (IsWord key × IsUnmarked key))
    × (((gap ≢ []) × IsGap gap) × (IsWord val × (StartsGap tail × IsText tail)))

unfoldable pub meaning : Written → Line
meaning (comment s) = ignored
meaning (blank s) = ignored
meaning (words indent key gap val tail) =
    if same include_word key then include val else assignment key val

-- The first value of a key counts.
abbrev pub with_first : Bytes → Bytes → ConfigMap → Option Bytes → ConfigMap
with_first key val m none = (key, val) ∷ m
with_first key val m (some old) = m

-- A file that cannot be read ends the reading.
abbrev pub go_on : (ConfigMap → Parsed) → Bool × ConfigMap → Parsed
go_on next (true, m) = next m
go_on next (false, m) = done (false, m)

-- What the lines of a file mean for the settings, when `read` reads a file.
unfoldable pub carry_out : (Bytes → ConfigMap → Parsed) → List Written → ConfigMap → Parsed
carry_out read [] m = done (true, m)
carry_out read (comment s ∷ ws) m = carry_out read ws m
carry_out read (blank s ∷ ws) m = carry_out read ws m
carry_out read (words indent key gap val tail ∷ ws) m =
    let later = carry_out read ws in
    if same (codes "include") key
    then (read val m >>= go_on later)
    else later (with_first key val m (find key m))

lines-line : (s rest : Bytes) → IsText s → lines (s ++ b'\n' ∷ rest) ≡ s ∷ lines rest
unfolding lines
lines-line [] rest h = refl
lines-line (c ∷ s) rest h = ground (arith, lines-line s rest h.1, h.0)

skip-gap : (g s : Bytes) → IsGap g → skip_delimiters (g ++ s) ≡ skip_delimiters s
unfolding skip_delimiters
skip-gap [] s h = refl
skip-gap (c ∷ g) s h = rw h.0 (skip-gap g s h.1)

abbrev rest_of : Bytes → Bytes
rest_of [] = []
rest_of (c ∷ s) = s

token-word :
    (w r : Bytes)
    → All (λ c. is_delimiter c ≡ false) w
    → StartsGap r
    → token (w ++ r) ≡ (w, rest_of r)
unfolding token
token-word [] [] h k = refl
token-word [] (d ∷ r) h k = rw k refl
token-word (c ∷ w) r h k = rw (h.0, token-word w r h.1 k) refl

strtok-word :
    (g w r : Bytes)
    → IsGap g
    → IsWord w
    → StartsGap r
    → strtok (g ++ (w ++ r)) ≡ some (w, rest_of r)
unfolding strtok skip_delimiters
strtok-word g [] r hg hw hr = absurd (hw.0 refl)
strtok-word g (c ∷ w) r hg hw hr =
    rw (skip-gap g ((c ∷ w) ++ r) hg, hw.1.1.0) (ap some (token-word (c ∷ w) r hw.1.1 hr))

strtok_second :
    (gap w r : Bytes)
    → gap ≢ []
    → IsGap gap
    → IsWord w
    → StartsGap r
    → strtok (rest_of (gap ++ (w ++ r))) ≡ some (w, rest_of r)
strtok_second [] w r ne hg hw hr = absurd (ne refl)
strtok_second (d ∷ gap) w r ne hg hw hr = strtok-word gap w r hg.1 hw hr

StartsGap-append : (g s : Bytes) → g ≢ [] → IsGap g → StartsGap (g ++ s)
StartsGap-append [] s ne h = absurd (ne refl)
StartsGap-append (c ∷ g) s ne h = h.0

not_mark : (c : ℕ) → c ≢ b'#' → (c == b'#') ≡ false
not_mark c ne = ground arith

delimiter_text : (c : ℕ) → is_delimiter c ≡ true → (c ≢ b'#') × ((c ≢ b'\n') × (c ≢ 0))
unfolding is_delimiter
delimiter_text c h = (ground arith, (ground arith, ground arith))

parse_line-unmarked :
    (c : ℕ) (s : Bytes) → c ≢ b'#' → parse_line (c ∷ s) ≡ with_key (strtok (c ∷ s))
unfolding parse_line
parse_line-unmarked c s ne = rw (not_mark c ne) refl

with_key-words :
    (indent key gap val tail : Bytes)
    → IsWritten (words indent key gap val tail)
    → with_key (strtok (show (words indent key gap val tail)))
      ≡ meaning (words indent key gap val tail)
unfolding meaning strtok same
with_key-words indent key gap val tail ((hi, (hk, _)), ((ne, hg), (hv, (ht, _)))) =
    rw
      (strtok-word indent key (gap ++ (val ++ tail)) hi hk
        (StartsGap-append gap (val ++ tail) ne hg))
      (rw (strtok_second gap val tail ne hg hv ht) refl)

-- The first byte of such a line is no mark.
parse_line-words :
    (indent key gap val tail : Bytes)
    → IsWritten (words indent key gap val tail)
    → parse_line (show (words indent key gap val tail)) ≡ meaning (words indent key gap val tail)
unfolding meaning
parse_line-words [] [] gap val tail h = absurd (h.0.1.0.0 refl)
parse_line-words [] (c ∷ key) gap val tail h =
    parse_line-unmarked c (key ++ (gap ++ (val ++ tail))) h.0.1.1
    ∙ with_key-words [] (c ∷ key) gap val tail h
parse_line-words (d ∷ indent) key gap val tail h =
    parse_line-unmarked d (indent ++ (key ++ (gap ++ (val ++ tail)))) (delimiter_text d h.0.0.0).0
    ∙ with_key-words (d ∷ indent) key gap val tail h

strtok-gap : (g : Bytes) → IsGap g → strtok g ≡ none
unfolding strtok skip_delimiters
strtok-gap [] h = refl
strtok-gap (c ∷ g) h = rw h.0 (strtok-gap g h.1)

parse_line-blank : (g : Bytes) → IsGap g → parse_line g ≡ ignored
unfolding parse_line
parse_line-blank [] h = refl
parse_line-blank (c ∷ g) h =
    parse_line-unmarked c g (delimiter_text c h.0).0 ∙ ap with_key (strtok-gap (c ∷ g) h)

parse_line-show : (w : Written) → IsWritten w → parse_line (show w) ≡ meaning w
unfolding parse_line meaning
parse_line-show (comment s) h = refl
parse_line-show (blank s) h = parse_line-blank s h
parse_line-show (words indent key gap val tail) h = parse_line-words indent key gap val tail h

gap-IsText : (g : Bytes) → IsGap g → IsText g
gap-IsText [] h = tt
gap-IsText (c ∷ g) h = ((delimiter_text c h.0).1, gap-IsText g h.1)

IsText-append : (s t : Bytes) → IsText s → IsText t → IsText (s ++ t)
IsText-append s t = All-append (λ c. (c ≢ b'\n') × (c ≢ 0)) s t

show-IsText : (w : Written) → IsWritten w → IsText (show w)
show-IsText (comment s) h = ((ground arith, ground arith), h)
show-IsText (blank s) h = gap-IsText s h
show-IsText (words indent key gap val tail) ((hi, (hk, _)), ((_, hg), (hv, (_, ht)))) =
    IsText-append indent (key ++ (gap ++ (val ++ tail))) (gap-IsText indent hi) (
      IsText-append key (gap ++ (val ++ tail)) hk.1.0
        (IsText-append gap (val ++ tail) (gap-IsText gap hg) (IsText-append val tail hv.1.0 ht)))

unless_failed-go_on :
    (next later : ConfigMap → Parsed) (r : Bool × ConfigMap)
    → ((m : ConfigMap) → next m ≡ later m)
    → unless_failed next r ≡ go_on later r
unless_failed-go_on next later (true, m) h = h m
unless_failed-go_on next later (false, m) h = refl

>>=-go_on :
    (next later : ConfigMap → Parsed) (p : Parsed)
    → ((m : ConfigMap) → next m ≡ later m)
    → (p >>= unless_failed next) ≡ (p >>= go_on later)
>>=-go_on next later (done r) h = unless_failed-go_on next later r h
>>=-go_on next later fault h = refl
>>=-go_on next later stuck h = refl

nothing :
    (parse : Bytes → ConfigMap → Parsed) (m : ConfigMap)
    → parse_lines parse (lines (print [])) m ≡ done (true, m)
unfolding parse_lines lines print
nothing parse m = refl

parse_lines-head :
    (parse : Bytes → ConfigMap → Parsed) (l : Bytes) (ls : List Bytes) (m : ConfigMap)
    → parse_lines parse (l ∷ ls) m
      ≡ (apply_line parse (parse_line l) m >>= unless_failed (parse_lines parse ls))
unfolding parse_lines
parse_lines-head parse l ls m = refl

add_setting-with_first :
    (key val : Bytes) (m : ConfigMap) → add_setting key val m ≡ with_first key val m (find key m)
unfolding add_setting
add_setting-with_first key val m = elim (Option-cases (find key m)) [
  | inl missing ↦ rw missing refl
  | inr (old, found) ↦ rw found refl
]

step :
    (parse : Bytes → ConfigMap → Parsed) (w : Written) (ws : List Written) (m : ConfigMap)
    → IsWritten w
    → parse_lines parse (lines (print (w ∷ ws))) m
      ≡ (apply_line parse (meaning w) m >>= unless_failed (parse_lines parse (lines (print ws))))
unfolding print
step parse w ws m h =
    ap (λ ls. parse_lines parse ls m) (lines-line (show w) (print ws) (show-IsText w h))
    ∙ parse_lines-head parse (show w) (lines (print ws)) m
    ∙ ap (λ l. apply_line parse l m >>= unless_failed (parse_lines parse (lines (print ws))))
        (parse_line-show w h)

words-carried :
    (parse : Bytes → ConfigMap → Parsed) (key val : Bytes) (m : ConfigMap)
    (next later : ConfigMap → Parsed)
    → ((n : ConfigMap) → next n ≡ later n)
    → (apply_line parse (if same include_word key then include val else assignment key val) m
        >>= unless_failed next)
      ≡ (if same (codes "include") key
          then (parse val m >>= go_on later)
          else later (with_first key val m (find key m)))
words-carried parse key val m next later h = elim (Bool-cases (same include_word key)) [
  | inl yes_it_is ↦ rw yes_it_is (>>=-go_on next later (parse val m) h)
  | inr setting ↦
      rw setting (h (add_setting key val m) ∙ ap later (add_setting-with_first key val m))
]

parse_lines-print :
    (parse : Bytes → ConfigMap → Parsed) (ws : List Written) (m : ConfigMap)
    → All IsWritten ws
    → parse_lines parse (lines (print ws)) m ≡ carry_out parse ws m
unfolding carry_out meaning
parse_lines-print parse [] m h = nothing parse m
parse_lines-print parse (comment s ∷ ws) m h =
    step parse (comment s) ws m h.0 ∙ parse_lines-print parse ws m h.1
parse_lines-print parse (blank s ∷ ws) m h =
    step parse (blank s) ws m h.0 ∙ parse_lines-print parse ws m h.1
parse_lines-print parse (words indent key gap val tail ∷ ws) m h =
    step parse (words indent key gap val tail) ws m h.0
    ∙ words-carried parse key val m (parse_lines parse (lines (print ws))) (carry_out parse ws)
        (λ n. parse_lines-print parse ws n h.1)

-- A file that is written line by line, each line a comment, empty of words, or two words with
-- delimiters between them, is carried out line by line: a comment and an empty line do nothing, two
-- words set a key that has no value yet, and the word `include` reads the file named by the other
-- word in place of the line.
pub parse_config_file-print :
    (depth : ℕ) (files : Files) (name : Bytes) (ws : List Written) (m : ConfigMap)
    → files name ≡ text (print ws)
    → All IsWritten ws
    → parse_config_file (suc depth) files name m ≡ carry_out (parse_config_file depth files) ws m
unfolding parse_config_file
parse_config_file-print depth files name ws m e h =
    rw e (parse_lines-print (parse_config_file depth files) ws m h)
