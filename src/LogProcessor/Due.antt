-- ===== src/LogProcessor/Due.antt =====
-- The date of a file and the days that have passed since, without the arithmetic of the code.
use thirft_proxy.Prelude.{
  ℕ, ◌+◌, ◌-◌, ◌*◌, ◌/◌, ◌%◌, ◌^◌, ◌≤◌, ◌<◌, ◌≡◌, refl, ◌∙◌, ap, sym, true, false, ◌&&◌, Option,
  none, some, [], ◌∷◌, ◌++◌, leb, ltb, arith, Bool-cases, Option-cases, inl, inr,
}
use thirft_proxy.Text.{Bytes, atoi}
use thirft_proxy.Text.Codes.{codes}
use thirft_proxy.LogProcessor.{
  Calendar, take_bytes, drop_bytes, get_file_date, get_timestamp_by_date, get_day_distance,
  is_older, is_below, is_date, starts_with, contains, is_due,
}

abbrev digits_of : Bytes → Option (ℕ × ℕ) → ℕ
digits_of name none = 0
digits_of name (some (so, eo)) = atoi (take_bytes (eo - so) (drop_bytes so name))

-- The date that a name carries, or 0.
abbrev pub own_date : Calendar → Bytes → ℕ
own_date cal name = digits_of name (cal.regexec name)

-- When the day of a date begins.
abbrev pub midnight : Calendar → ℕ → ℕ
midnight cal date =
    cal.day_start (cal.mktime (date / 10000) (date / 100 % 100) (date % 100) % 2 ^ 32)

-- A part of a name.
abbrev pub Within : Bytes → Bytes → Type 0
Within part s = (before : Bytes) × ((after : Bytes) × (s ≡ before ++ (part ++ after)))

pub get_file_date-own_date :
    (cal : Calendar) (name : Bytes) → get_file_date cal name 0 ≡ own_date cal name
unfolding get_file_date
get_file_date-own_date cal name = elim (Option-cases (cal.regexec name)) [
  | inl undated ↦ rw undated refl
  | inr ((so, eo), dated) ↦ rw dated refl
]

pub is_older-midnight :
    (cal : Calendar) (now days date : ℕ)
    → is_older cal now days date ≡ leb (midnight cal date + (days + 1) * 86400) now
unfolding is_older get_day_distance get_timestamp_by_date
is_older-midnight cal now days date = elim (Bool-cases (leb (midnight cal date) now)) [
  | inl past ↦ rw past (ground arith)
  | inr ahead ↦ rw ahead (ground arith)
]

is_below-midnight :
    (cal : Calendar) (now days date : ℕ)
    → is_below (get_day_distance cal (get_timestamp_by_date cal date) now) (days + 1)
      ≡ ltb now (midnight cal date + (days + 1) * 86400)
unfolding get_day_distance get_timestamp_by_date
is_below-midnight cal now days date = elim (Bool-cases (leb (midnight cal date) now)) [
  | inl past ↦ rw past (ground arith)
  | inr ahead ↦ rw ahead (ground arith)
]

starts_with-prefix : (p s : Bytes) → starts_with p s ≡ true → (after : Bytes) × (s ≡ p ++ after)
unfolding starts_with
starts_with-prefix [] s h = (s, refl)
starts_with-prefix (c ∷ p) [] h = absurd (ground arith)
starts_with-prefix (c ∷ p) (d ∷ s) h =
    let (after, e) = starts_with-prefix p s (ground arith) in
    let same : c ≡ d = ground arith in
    (after, ap (◌∷◌ d) e ∙ ap (λ (x : ℕ). x ∷ p ++ after) (sym same))

prefix-starts_with : (p after : Bytes) → starts_with p (p ++ after) ≡ true
unfolding starts_with
prefix-starts_with [] after = refl
prefix-starts_with (c ∷ p) after = ground (arith, prefix-starts_with p after)

contains-Within : (part s : Bytes) → contains part s ≡ true → Within part s
unfolding contains
contains-Within part [] h = ([], starts_with-prefix part [] h)
contains-Within part (c ∷ s) h = elim (Bool-cases (starts_with part (c ∷ s))) [
  | inl here ↦ ([], starts_with-prefix part (c ∷ s) here)
  | inr later ↦
      let (before, (after, e)) = contains-Within part s (rw later at h) in
      (c ∷ before, (after, ap (◌∷◌ c) e))
]

contains-start : (part s : Bytes) → starts_with part s ≡ true → contains part s ≡ true
unfolding contains
contains-start part [] h = h
contains-start part (c ∷ s) h = rw h refl

contains-append : (part before after : Bytes) → contains part (before ++ (part ++ after)) ≡ true
unfolding contains
contains-append part [] after = contains-start part (part ++ after) (prefix-starts_with part after)
contains-append part (c ∷ before) after = ground (arith, contains-append part before after)

Within-contains : (part s : Bytes) → Within part s → contains part s ≡ true
Within-contains part s (before, (after, e)) =
    ap (contains part) e ∙ contains-append part before after

-- A file that is to go into an archive.
pub record IsDue (cal : Calendar) (now archive_days remove_days : ℕ) (name : Bytes) : Type 0 where
  pub no_archive : ¬ Within (codes ".tar.gz") name
  pub plausible : (20000000 ≤ own_date cal name) × (own_date cal name ≤ 30000000)
  pub over : midnight cal (own_date cal name) + (archive_days + 1) * 86400 ≤ now
  pub kept : now < midnight cal (own_date cal name) + (remove_days + 1) * 86400

is_due_eq :
    (cal : Calendar) (now a r : ℕ) (name : Bytes)
    → contains (codes ".tar.gz") name ≡ false
    → is_due cal now a r name ≡ (
        (leb 20000000 (own_date cal name) && leb (own_date cal name) 30000000)
        && (leb (midnight cal (own_date cal name) + (a + 1) * 86400) now
            && ltb now (midnight cal (own_date cal name) + (r + 1) * 86400)))
unfolding is_due is_date
is_due_eq cal now a r name h =
    rw
      (
        h,
        get_file_date-own_date cal name,
        is_older-midnight cal now a (own_date cal name),
        is_below-midnight cal now r (own_date cal name),
      )
      refl

is_due_archive :
    (cal : Calendar) (now a r : ℕ) (name : Bytes)
    → contains (codes ".tar.gz") name ≡ true
    → is_due cal now a r name ≡ false
unfolding is_due
is_due_archive cal now a r name h = rw h refl

pub is_due-IsDue :
    (cal : Calendar) (now a r : ℕ) (name : Bytes)
    → is_due cal now a r name ≡ true
    → IsDue cal now a r name
is_due-IsDue cal now a r name h = elim (Bool-cases (contains (codes ".tar.gz") name)) [
  | inl archive ↦ absurd (cc (h, is_due_archive cal now a r name archive))
  | inr plain ↦
      let k = rw (is_due_eq cal now a r name plain) at h in
      record {
        no_archive = λ w. cc (plain, Within-contains (codes ".tar.gz") name w);
        plausible = (ground arith, ground arith);
        over = ground arith;
        kept = ground arith;
      }
]

pub IsDue-is_due :
    (cal : Calendar) (now a r : ℕ) (name : Bytes)
    → IsDue cal now a r name
    → is_due cal now a r name ≡ true
IsDue-is_due cal now a r name h = elim (Bool-cases (contains (codes ".tar.gz") name)) [
  | inl archive ↦ absurd (h.no_archive (contains-Within (codes ".tar.gz") name archive))
  | inr plain ↦
      let low = h.plausible.0 in
      let high = h.plausible.1 in
      let over = h.over in let kept = h.kept in rw (is_due_eq cal now a r name plain) (ground arith)
]
