-- ===== src/Config/Keeps.antt =====
-- Reading a file never changes a setting that is there.
use thirft_proxy.Prelude.{
  done, >>=-eq-done, done_inj, ℕ, zero, suc, ◌≡◌, subst, Bool, true, false, some, List, [], ◌∷◌,
  inl, inr, Bool-cases, Option-cases,
}
use thirft_proxy.Text.{Bytes, same, same-eq}
use thirft_proxy.Config.{
  ConfigMap, find, File, absent, unreadable, text, Files, lines, Line, ignored, assignment, include,
  parse_line, add_setting, Parsed, apply_line, unless_failed, parse_lines, parse_file,
  parse_config_file,
}

-- What has a value in the first map has the same value in the second.
abbrev pub Keeps : ConfigMap → ConfigMap → Type 0
Keeps m n = (key val : Bytes) → find key m ≡ some val → find key n ≡ some val

add_setting-Keeps : (key val : Bytes) (m : ConfigMap) → Keeps m (add_setting key val m)
unfolding add_setting find
add_setting-Keeps key val m k v e = elim (Option-cases (find key m)) [
  | inl missing ↦ rw missing (elim (Bool-cases (same key k)) [
    | inl eq ↦ absurd (cc (missing, e, same-eq key k eq))
    | inr ne ↦ rw ne e
  ])
  | inr (old, found) ↦ rw found e
]

abbrev AlwaysKeeps : (Bytes → ConfigMap → Parsed) → Type 0
AlwaysKeeps parse =
    (name : Bytes) (m : ConfigMap) (r : Bool × ConfigMap) → parse name m ≡ done r → Keeps m r.1

apply_line-Keeps :
    (parse : Bytes → ConfigMap → Parsed)
    → AlwaysKeeps parse
    → (l : Line) (m : ConfigMap) (r : Bool × ConfigMap) → apply_line parse l m ≡ done r
    → Keeps m r.1
apply_line-Keeps parse h ignored m r e = subst (λ r. Keeps m r.1) (done_inj e) (λ key val f. f)
apply_line-Keeps parse h (assignment key val) m r e =
    subst (λ r. Keeps m r.1) (done_inj e) (add_setting-Keeps key val m)
apply_line-Keeps parse h (include name) m r e = h name m r e

-- The rest of the lines is read unless the line failed.
unless_failed-Keeps :
    (next : ConfigMap → Parsed)
    → ((m : ConfigMap) (r : Bool × ConfigMap) → next m ≡ done r → Keeps m r.1)
    → (ok : Bool) (m n : ConfigMap) (r : Bool × ConfigMap) → Keeps m n
    → unless_failed next (ok, n) ≡ done r
    → Keeps m r.1
unless_failed-Keeps next h true m n r k e = λ key val f. h n r e key val (k key val f)
unless_failed-Keeps next h false m n r k e = subst (λ r. Keeps m r.1) (done_inj e) k

parse_lines-Keeps :
    (parse : Bytes → ConfigMap → Parsed)
    → AlwaysKeeps parse
    → (ls : List Bytes) (m : ConfigMap) (r : Bool × ConfigMap) → parse_lines parse ls m ≡ done r
    → Keeps m r.1
unfolding parse_lines
parse_lines-Keeps parse h [] m r e = subst (λ r. Keeps m r.1) (done_inj e) (λ key val f. f)
parse_lines-Keeps parse h (l ∷ ls) m r e =
    let (first, here, later) =
      >>=-eq-done (apply_line parse (parse_line l) m) (unless_failed (parse_lines parse ls)) e in
    unless_failed-Keeps (parse_lines parse ls) (parse_lines-Keeps parse h ls) first.0 m first.1 r
      (apply_line-Keeps parse h (parse_line l) m first here) later

parse_file-Keeps :
    (parse : Bytes → ConfigMap → Parsed)
    → AlwaysKeeps parse
    → (f : File) (m : ConfigMap) (r : Bool × ConfigMap) → parse_file parse f m ≡ done r
    → Keeps m r.1
parse_file-Keeps parse h absent m r e = subst (λ r. Keeps m r.1) (done_inj e) (λ key val f. f)
parse_file-Keeps parse h unreadable m r e = subst (λ r. Keeps m r.1) (done_inj e) (λ key val f. f)
parse_file-Keeps parse h (text s) m r e = parse_lines-Keeps parse h (lines s) m r e

-- Whatever the files hold and however deep they include each other, and also when one of them cannot
-- be read, a key that has a value keeps it while a file is parsed: the first setting of a key counts.
pub parse_config_file-Keeps :
    (depth : ℕ) (files : Files) (name : Bytes) (m : ConfigMap) (r : Bool × ConfigMap)
    → parse_config_file depth files name m ≡ done r
    → Keeps m r.1
unfolding parse_config_file
parse_config_file-Keeps zero files name m r e = absurd cc
parse_config_file-Keeps (suc depth) files name m r e =
    parse_file-Keeps (parse_config_file depth files) (parse_config_file-Keeps depth files)
      (files name) m r e
