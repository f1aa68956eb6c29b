-- ===== src/Config/Depth.antt =====
-- How deep files may include each other.
use thirft_proxy.Prelude.{
  done, fault, ℕ, zero, suc, ◌<◌, ◌≡◌, refl, Bool, true, false, All, List, [], ◌∷◌, arith,
}
use thirft_proxy.Text.{Bytes}
use thirft_proxy.Config.{
  ConfigMap, File, absent, unreadable, text, Files, lines, Line, ignored, assignment, include,
  parse_line, add_setting, Parsed, apply_line, unless_failed, parse_lines, parse_file,
  parse_config_file,
}

-- A file includes only files of a smaller rank.
abbrev pub IsRanked : Files → (Bytes → ℕ) → Type 0
IsRanked files rank =
    (name s : Bytes)
    → files name ≡ text s
    → All (λ l. (other : Bytes) → parse_line l ≡ include other → rank other < rank name) (lines s)

abbrev Ends : Parsed → Type 0
Ends p = (r : Bool × ConfigMap) × (p ≡ done r)

abbrev EndsOn : (Bytes → ConfigMap → Parsed) → Line → Type 0
EndsOn parse l = (other : Bytes) → l ≡ include other → (m : ConfigMap) → Ends (parse other m)

apply_line-Ends :
    (parse : Bytes → ConfigMap → Parsed) (l : Line) (m : ConfigMap)
    → EndsOn parse l
    → Ends (apply_line parse l m)
apply_line-Ends parse ignored m h = ((true, m), refl)
apply_line-Ends parse (assignment key val) m h = ((true, add_setting key val m), refl)
apply_line-Ends parse (include name) m h = h name refl m

unless_failed-Ends :
    (next : ConfigMap → Parsed) (r : Bool × ConfigMap)
    → ((m : ConfigMap) → Ends (next m))
    → Ends (unless_failed next r)
unless_failed-Ends next (true, m) h = h m
unless_failed-Ends next (false, m) h = ((false, m), refl)

parse_lines-Ends :
    (parse : Bytes → ConfigMap → Parsed) (ls : List Bytes) (m : ConfigMap)
    → All (λ l. EndsOn parse (parse_line l)) ls
    → Ends (parse_lines parse ls m)
unfolding parse_lines
parse_lines-Ends parse [] m h = ((true, m), refl)
parse_lines-Ends parse (l ∷ ls) m h =
    let (r, e) = apply_line-Ends parse (parse_line l) m h.0 in
    rw e
      (unless_failed-Ends (parse_lines parse ls) r (λ later. parse_lines-Ends parse ls later h.1))

All-imp :
    (P Q : Bytes → Type 0) → ((l : Bytes) → P l → Q l) → (ls : List Bytes) → All P ls → All Q ls
All-imp P Q f [] h = tt
All-imp P Q f (l ∷ ls) h = (f l h.0, All-imp P Q f ls h.1)

-- A file is parsed to the end when the files that it may include are.
parse_file-Ends :
    (parse : Bytes → ConfigMap → Parsed) (files : Files) (rank : Bytes → ℕ) (name : Bytes)
    → IsRanked files rank
    → ((other : Bytes) → rank other < rank name → (m : ConfigMap) → Ends (parse other m))
    → (m : ConfigMap) (f : File) → files name ≡ f
    → Ends (parse_file parse f m)
parse_file-Ends parse files rank name ranked smaller m absent e = ((false, m), refl)
parse_file-Ends parse files rank name ranked smaller m unreadable e = ((false, m), refl)
parse_file-Ends parse files rank name ranked smaller m (text s) e =
    parse_lines-Ends parse (lines s) m (
      All-imp (λ l. (other : Bytes) → parse_line l ≡ include other → rank other < rank name)
        (λ l. EndsOn parse (parse_line l)) (λ l lt other eq. smaller other (lt other eq)) (lines s)
        (ranked name s e))

-- A file whose includes go to smaller ranks is parsed to the end, with or without success, when the
-- stack has room for more files than its rank.
pub parse_config_file-Ends :
    (depth : ℕ) (files : Files) (rank : Bytes → ℕ) (name : Bytes) (m : ConfigMap)
    → IsRanked files rank
    → rank name < depth
    → (r : Bool × ConfigMap) × (parse_config_file depth files name m ≡ done r)
unfolding parse_config_file
parse_config_file-Ends zero files rank name m ranked lt = absurd (omega arith)
parse_config_file-Ends (suc depth) files rank name m ranked lt =
    parse_file-Ends (parse_config_file depth files) files rank name ranked
      (λ other below n. parse_config_file-Ends depth files rank other n ranked (omega arith)) m
      (files name) refl

-- A file whose first line includes the file itself overflows the stack, whatever its size.
pub parse_config_file_self :
    (files : Files) (name s l : Bytes) (ls : List Bytes)
    → files name ≡ text s
    → lines s ≡ l ∷ ls
    → parse_line l ≡ include name
    → (depth : ℕ) (m : ConfigMap) → parse_config_file depth files name m ≡ fault
unfolding parse_config_file parse_lines
parse_config_file_self files name s l ls e first self zero m = refl
parse_config_file_self files name s l ls e first self (suc depth) m =
    rw (e, first, self, parse_config_file_self files name s l ls e first self depth m) refl
