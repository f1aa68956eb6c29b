-- ===== src/LogProcessor/Remove.antt =====
-- Which files `DoRemove` unlinks.
use thirft_proxy.Prelude.{
  ℕ, ◌+◌, ◌*◌, ◌≡◌, refl, ap, ◌∙◌, Bool, true, false, ◌&&◌, All, none, some, List, [], ◌∷◌, ◌++◌,
  inl, inr, Bool-cases, if◌then◌else◌, leb, arith,
}
use thirft_proxy.Text.{Bytes}
use thirft_proxy.LogProcessor.{
  Calendar, DirEntry, FileType, regular, unknown, other, is_regular, is_date, is_older,
  get_file_date, remove_loop, do_remove, path,
}
use thirft_proxy.LogProcessor.Due.{own_date, midnight, is_older-midnight}

abbrev stands : FileType → Bool → Bool
stands regular found = found
stands unknown found = false
stands other found = false

-- A regular file that `stat` finds.
abbrev pub is_candidate : DirEntry → Bool
is_candidate e = stands e.d_type e.found

-- The file's own date is a plausible one, and old enough.
unfoldable pub is_outdated : Calendar → ℕ → Bytes → ℕ → DirEntry → Bool
is_outdated cal now workpath days e =
    let date = own_date cal (workpath ++ b'/' ∷ e.d_name) in
    leb 20000000 date && (leb date 30000000 && leb (midnight cal date + (days + 1) * 86400) now)

unfoldable pub outdated : Calendar → ℕ → Bytes → ℕ → List DirEntry → List Bytes
unfolding is_outdated
outdated cal now workpath days [] = []
outdated cal now workpath days (e ∷ es) =
    let rest = outdated cal now workpath days es in
    if is_candidate e && is_outdated cal now workpath days e then e.d_name ∷ rest else rest

-- Eight digits are found in the path of the file.
abbrev pub HasDate : Calendar → Bytes → DirEntry → Type 0
HasDate cal workpath e =
    is_candidate e ≡ true → (at : ℕ × ℕ) × (cal.regexec (workpath ++ b'/' ∷ e.d_name) ≡ some at)

-- What the code unlinks of one entry, with the date that it has found.
abbrev unlinked : Calendar → ℕ → ℕ → ℕ → DirEntry → List Bytes → List Bytes
unlinked cal now days date e rest =
    if is_date date && is_older cal now days date then e.d_name ∷ rest else rest

get_file_date-HasDate :
    (cal : Calendar) (name : Bytes) (date : ℕ) (at : ℕ × ℕ)
    → cal.regexec name ≡ some at
    → get_file_date cal name date ≡ own_date cal name
unfolding get_file_date
get_file_date-HasDate cal name date (so, eo) e = rw e refl

get_file_date-none :
    (cal : Calendar) (name : Bytes) (date : ℕ)
    → cal.regexec name ≡ none
    → get_file_date cal name date ≡ date
unfolding get_file_date
get_file_date-none cal name date e = rw e refl

is_regular_lem : (t : FileType) (found : Bool) → (is_regular t && found) ≡ stands t found
is_regular_lem regular found = refl
is_regular_lem unknown found = refl
is_regular_lem other found = refl

is_candidate_lem : (e : DirEntry) → (is_regular e.d_type && e.found) ≡ is_candidate e
is_candidate_lem e = is_regular_lem e.d_type e.found

is_outdated_lem :
    (cal : Calendar) (now : ℕ) (workpath : Bytes) (days : ℕ) (e : DirEntry)
    → (is_date (own_date cal (path workpath e.d_name))
        && is_older cal now days (own_date cal (path workpath e.d_name)))
      ≡ is_outdated cal now workpath days e
unfolding is_outdated is_date
is_outdated_lem cal now workpath days e =
    let date = own_date cal (path workpath e.d_name) in
    rw (is_older-midnight cal now days date) (ground arith)

loop_skip :
    (cal : Calendar) (now : ℕ) (workpath : Bytes) (days date : ℕ) (e : DirEntry)
    (es : List DirEntry)
    → is_candidate e ≡ false
    → remove_loop cal now workpath days date (e ∷ es) ≡ remove_loop cal now workpath days date es
unfolding remove_loop
loop_skip cal now workpath days date e es h = rw (is_candidate_lem e, h) refl

loop_candidate :
    (cal : Calendar) (now : ℕ) (workpath : Bytes) (days date next : ℕ) (e : DirEntry)
    (es : List DirEntry)
    → is_candidate e ≡ true
    → get_file_date cal (path workpath e.d_name) date ≡ next
    → remove_loop cal now workpath days date (e ∷ es)
      ≡ unlinked cal now days next e (remove_loop cal now workpath days next es)
unfolding remove_loop
loop_candidate cal now workpath days date next e es h d = rw (is_candidate_lem e, h, d) refl

loop_none :
    (cal : Calendar) (now : ℕ) (workpath : Bytes) (days date : ℕ)
    → remove_loop cal now workpath days date [] ≡ []
unfolding remove_loop
loop_none cal now workpath days date = refl

remove_loop-outdated :
    (cal : Calendar) (now : ℕ) (workpath : Bytes) (days date : ℕ) (es : List DirEntry)
    → All (HasDate cal workpath) es
    → remove_loop cal now workpath days date es ≡ outdated cal now workpath days es
unfolding outdated
remove_loop-outdated cal now workpath days date [] h = loop_none cal now workpath days date
remove_loop-outdated cal now workpath days date (e ∷ es) h = elim (Bool-cases (is_candidate e)) [
  | inl here ↦
      let (at, found_at) = h.0 here in
      let own = own_date cal (path workpath e.d_name) in
      loop_candidate cal now workpath days date own e es here
        (get_file_date-HasDate cal (path workpath e.d_name) date at found_at)
      ∙ rw
          (
            here,
            is_outdated_lem cal now workpath days e,
            remove_loop-outdated cal now workpath days own es h.1,
          )
          refl
  | inr skipped ↦
      loop_skip cal now workpath days date e es skipped
      ∙ rw (skipped, remove_loop-outdated cal now workpath days date es h.1) refl
]

-- When the path of each regular file has a date, `DoRemove` unlinks exactly the regular files whose
-- own date is from 20000000 to 30000000 and from the beginning of whose day more whole days have
-- passed than the limit, in the order of the directory.
pub do_remove-outdated :
    (cal : Calendar) (now : ℕ) (workpath : Bytes) (days : ℕ) (es : List DirEntry)
    → All (HasDate cal workpath) es
    → do_remove cal now workpath days (some es) ≡ (0, outdated cal now workpath days es)
unfolding do_remove
do_remove-outdated cal now workpath days es h =
    ap (λ names. (0, names)) (remove_loop-outdated cal now workpath days 0 es h)

-- The entries before leave a date behind, and what is unlinked of them does not depend on the rest.
remove_loop-append :
    (cal : Calendar) (now : ℕ) (workpath : Bytes) (days date : ℕ) (pre es : List DirEntry)
    → (left : ℕ) × (remove_loop cal now workpath days date (pre ++ es)
        ≡ remove_loop cal now workpath days date pre ++ remove_loop cal now workpath days left es)
unfolding remove_loop
remove_loop-append cal now workpath days date [] es = (date, refl)
remove_loop-append cal now workpath days date (e ∷ pre) es =
    elim (Bool-cases (is_regular e.d_type && e.found)) [
      | inl here ↦
          let next = get_file_date cal (path workpath e.d_name) date in
          let (left, same) = remove_loop-append cal now workpath days next pre es in
          (
            left,
            elim (Bool-cases (is_date next && is_older cal now days next)) [
              | inl old ↦ rw (here, old, same) refl
              | inr kept ↦ rw (here, kept, same) refl
            ],
          )
      | inr skipped ↦
          let (left, same) = remove_loop-append cal now workpath days date pre es in
          (left, rw (skipped, same) refl)
    ]

unlinked-old :
    (cal : Calendar) (now : ℕ) (workpath : Bytes) (days : ℕ) (e f : DirEntry) (rest : List Bytes)
    → is_outdated cal now workpath days e ≡ true
    → unlinked cal now days (own_date cal (path workpath e.d_name)) f rest ≡ f.d_name ∷ rest
unlinked-old cal now workpath days e f rest old =
    rw (is_outdated_lem cal now workpath days e, old) refl

-- Anywhere in the directory, a regular file with no date in its path that directly follows a regular
-- file with an outdated date of its own is unlinked with it: the date of the last file is still in the
-- variable. What is unlinked before the two is what is unlinked of the entries before them alone.
pub do_remove_undated :
    (cal : Calendar) (now : ℕ) (workpath : Bytes) (days : ℕ) (pre : List DirEntry) (e f : DirEntry)
    (post : List DirEntry)
    → is_candidate e ≡ true
    → HasDate cal workpath e
    → is_outdated cal now workpath days e ≡ true
    → is_candidate f ≡ true
    → cal.regexec (workpath ++ b'/' ∷ f.d_name) ≡ none
    → (before after : List Bytes) × ((do_remove cal now workpath days (some pre) ≡ (0, before))
        × (do_remove cal now workpath days (some (pre ++ e ∷ f ∷ post))
            ≡ (0, before ++ e.d_name ∷ f.d_name ∷ after)))
unfolding do_remove
do_remove_undated cal now workpath days pre e f post he dated old hf undated =
    let (at, found_at) = dated he in
    let (left, split) = remove_loop-append cal now workpath days 0 pre (e ∷ f ∷ post) in
    let own = own_date cal (path workpath e.d_name) in
    let after = remove_loop cal now workpath days own post in
    let second : remove_loop cal now workpath days own (f ∷ post) ≡ f.d_name ∷ after =
      loop_candidate cal now workpath days own own f post hf
        (get_file_date-none cal (path workpath f.d_name) own undated)
      ∙ unlinked-old cal now workpath days e f after old in
    let first : remove_loop cal now workpath days left (e ∷ f ∷ post)
        ≡ e.d_name ∷ f.d_name ∷ after =
      loop_candidate cal now workpath days left own e (f ∷ post) he
        (get_file_date-HasDate cal (path workpath e.d_name) left at found_at)
      ∙ (unlinked-old cal now workpath days e e (remove_loop cal now workpath days own (f ∷ post))
            old
          ∙ ap (◌∷◌ e.d_name) second) in
    (
      remove_loop cal now workpath days 0 pre,
      after,
      (
        refl,
        ap (λ names. (0, names))
            (split ∙ ap (◌++◌ (remove_loop cal now workpath days 0 pre)) first),
      ),
    )
