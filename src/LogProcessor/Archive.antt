-- ===== src/LogProcessor/Archive.antt =====
-- Which files go into the archives of which day.
use thirft_proxy.Prelude.{
  ℕ, ◌≡◌, sym, ◌∙◌, ap, ◌⊎◌, ◌↔◌, true, Option, List, [], ◌∷◌, inl, inr, Bool-cases, ◌==◌, ltb,
  ==_iff,
}
use thirft_proxy.Text.{Bytes, same, same-eq}
use thirft_proxy.LogProcessor.{
  Calendar, get_file_date, is_less, insert_name, TarFiles, insert_file, is_due, sort_files,
  files_in, DirEntry, sort_files_to_map,
}
use thirft_proxy.LogProcessor.Due.{
  IsDue, own_date, get_file_date-own_date, is_due-IsDue, IsDue-is_due,
}

abbrev pub Mem : Bytes → List Bytes → Type 0
Mem s [] = ⊥
Mem s (t ∷ ts) = (s ≡ t) ⊎ Mem s ts

-- The file is in the set of that date.
abbrev pub HasFile : ℕ → Bytes → TarFiles → Type 0
HasFile date s [] = ⊥
HasFile date s ((d, names) ∷ m) = ((date ≡ d) × Mem s names) ⊎ HasFile date s m

Mem-insert_name : (s t : Bytes) (ts : List Bytes) → Mem t (insert_name s ts) → (t ≡ s) ⊎ Mem t ts
unfolding insert_name
Mem-insert_name s t [] h = h
Mem-insert_name s t (u ∷ ts) h = elim (Bool-cases (same s u)) [
  | inl eq ↦ inr (rw eq at h)
  | inr ne ↦ elim (Bool-cases (is_less s u)) [
    | inl lt ↦ rw (ne, lt) at h
    | inr ge ↦ elim (rw (ne, ge) at h) [
      | inl e ↦ inr (inl e)
      | inr later ↦ elim (Mem-insert_name s t ts later) [ inl e ↦ inl e | inr k ↦ inr (inr k) ]
    ]
  ]
]

insert_name-Mem : (s t : Bytes) (ts : List Bytes) → (t ≡ s) ⊎ Mem t ts → Mem t (insert_name s ts)
unfolding insert_name
insert_name-Mem s t [] h = h
insert_name-Mem s t (u ∷ ts) h = elim (Bool-cases (same s u)) [
  | inl eq ↦ rw eq (elim h [ inl e ↦ inl (e ∙ same-eq s u eq) | inr k ↦ k ])
  | inr ne ↦ elim (Bool-cases (is_less s u)) [
    | inl lt ↦ rw (ne, lt) h
    | inr ge ↦
        rw (ne, ge)
          (elim h [
            | inl e ↦ inr (insert_name-Mem s t ts (inl e))
            | inr k ↦ elim k [ inl e ↦ inl e | inr l ↦ inr (insert_name-Mem s t ts (inr l)) ]
          ])
  ]
]

abbrev Added : ℕ → Bytes → TarFiles → ℕ → Bytes → Type 0
Added date s m d t = ((d ≡ date) × (t ≡ s)) ⊎ HasFile d t m

HasFile-insert_file :
    (date : ℕ) (s : Bytes) (m : TarFiles) (d : ℕ) (t : Bytes)
    → HasFile d t (insert_file date s m)
    → Added date s m d t
unfolding insert_file
HasFile-insert_file date s [] d t h = elim h [
  | inl (e, k) ↦ inl (e, elim k [ inl f ↦ f | inr no_file ↦ absurd no_file ])
  | inr no_file ↦ absurd no_file
]
HasFile-insert_file date s ((e, names) ∷ m) d t h = elim (Bool-cases (date == e)) [
  | inl eq ↦ elim (rw eq at h) [
    | inl (at_e, k) ↦ elim (Mem-insert_name s t names k) [
      | inl f ↦ inl (at_e ∙ sym ((==_iff date e).0 eq), f)
      | inr old ↦ inr (inl (at_e, old))
    ]
    | inr later ↦ inr (inr later)
  ]
  | inr ne ↦ elim (Bool-cases (ltb date e)) [
    | inl lt ↦ elim (rw (ne, lt) at h) [
      | inl (at_date, k) ↦ inl (at_date, elim k [ inl f ↦ f | inr no_file ↦ absurd no_file ])
      | inr later ↦ inr later
    ]
    | inr ge ↦ elim (rw (ne, ge) at h) [
      | inl there ↦ inr (inl there)
      | inr later ↦ elim (HasFile-insert_file date s m d t later) [
        | inl new ↦ inl new
        | inr old ↦ inr (inr old)
      ]
    ]
  ]
]

insert_file-HasFile :
    (date : ℕ) (s : Bytes) (m : TarFiles) (d : ℕ) (t : Bytes)
    → Added date s m d t
    → HasFile d t (insert_file date s m)
unfolding insert_file
insert_file-HasFile date s [] d t h = elim h [
  | inl (e, f) ↦ inl (e, inl f)
  | inr no_file ↦ absurd no_file
]
insert_file-HasFile date s ((e, names) ∷ m) d t h = elim (Bool-cases (date == e)) [
  | inl eq ↦ rw eq (elim h [
    | inl (at_date, f) ↦ inl (at_date ∙ (==_iff date e).0 eq, insert_name-Mem s t names (inl f))
    | inr old ↦ elim old [
      | inl (at_e, k) ↦ inl (at_e, insert_name-Mem s t names (inr k))
      | inr later ↦ inr later
    ]
  ])
  | inr ne ↦ elim (Bool-cases (ltb date e)) [
    | inl lt ↦ rw (ne, lt) (elim h [ inl (at_date, f) ↦ inl (at_date, inl f) | inr old ↦ inr old ])
    | inr ge ↦
        rw (ne, ge)
          (elim h [
            | inl new ↦ inr (insert_file-HasFile date s m d t (inl new))
            | inr old ↦ elim old [
              | inl there ↦ inl there
              | inr later ↦ inr (insert_file-HasFile date s m d t (inr later))
            ]
          ])
  ]
]

-- A name of the list that the code takes for due, at the date that it finds.
abbrev Picked : Calendar → (now archive_days remove_days : ℕ) → List Bytes → ℕ → Bytes → Type 0
Picked cal now a r names d s =
    Mem s names × ((is_due cal now a r s ≡ true) × (d ≡ get_file_date cal s 0))

HasFile-sort_files :
    (cal : Calendar) (now a r : ℕ) (names : List Bytes) (m : TarFiles) (d : ℕ) (s : Bytes)
    → HasFile d s (sort_files cal now a r names m)
    → HasFile d s m ⊎ Picked cal now a r names d s
unfolding sort_files
HasFile-sort_files cal now a r [] m d s h = inl h
HasFile-sort_files cal now a r (n ∷ names) m d s h = elim (Bool-cases (is_due cal now a r n)) [
  | inl due ↦
      elim (HasFile-sort_files cal now a r names (insert_file (get_file_date cal n 0) n m) d s
        (rw due at h)) [
          | inl there ↦ elim (HasFile-insert_file (get_file_date cal n 0) n m d s there) [
            | inl (e, f) ↦ inr (
              inl f,
              (ap (is_due cal now a r) f ∙ due, e ∙ ap (λ x. get_file_date cal x 0) (sym f)),
            )
            | inr old ↦ inl old
          ]
          | inr (k, rest) ↦ inr (inr k, rest)
        ]
  | inr kept ↦ elim (HasFile-sort_files cal now a r names m d s (rw kept at h)) [
    | inl old ↦ inl old
    | inr (k, rest) ↦ inr (inr k, rest)
  ]
]

sort_files-HasFile :
    (cal : Calendar) (now a r : ℕ) (names : List Bytes) (m : TarFiles) (d : ℕ) (s : Bytes)
    → HasFile d s m ⊎ Picked cal now a r names d s
    → HasFile d s (sort_files cal now a r names m)
unfolding sort_files
sort_files-HasFile cal now a r [] m d s h = elim h [ inl old ↦ old | inr (k, rest) ↦ absurd k ]
sort_files-HasFile cal now a r (n ∷ names) m d s h = elim (Bool-cases (is_due cal now a r n)) [
  | inl due ↦ rw due (
      sort_files-HasFile cal now a r names (insert_file (get_file_date cal n 0) n m) d s (elim h [
        | inl old ↦ inl (insert_file-HasFile (get_file_date cal n 0) n m d s (inr old))
        | inr (k, (is, at)) ↦ elim k [
          | inl e ↦ inl (
              insert_file-HasFile (get_file_date cal n 0) n m d s
                (inl (at ∙ ap (λ x. get_file_date cal x 0) e, e)))
          | inr later ↦ inr (later, (is, at))
        ]
      ]))
  | inr kept ↦ rw kept (
      sort_files-HasFile cal now a r names m d s (elim h [
        | inl old ↦ inl old
        | inr (k, (is, at)) ↦ elim k [
          | inl e ↦ absurd (cc (is, kept, ap (is_due cal now a r) e))
          | inr later ↦ inr (later, (is, at))
        ]
      ]))
]

-- A name of the list that is due, at its own date.
abbrev pub Sorted : Calendar → (now archive_days remove_days : ℕ) → List Bytes → ℕ → Bytes → Type 0
Sorted cal now a r names d s = Mem s names × (IsDue cal now a r s × (d ≡ own_date cal s))

Picked-Sorted :
    (cal : Calendar) (now a r : ℕ) (names : List Bytes) (d : ℕ) (s : Bytes)
    → Picked cal now a r names d s
    → Sorted cal now a r names d s
Picked-Sorted cal now a r names d s (k, (is, at)) =
    (k, (is_due-IsDue cal now a r s is, at ∙ get_file_date-own_date cal s))

Sorted-Picked :
    (cal : Calendar) (now a r : ℕ) (names : List Bytes) (d : ℕ) (s : Bytes)
    → Sorted cal now a r names d s
    → Picked cal now a r names d s
Sorted-Picked cal now a r names d s (k, (is, at)) =
    (k, (IsDue-is_due cal now a r s is, at ∙ sym (get_file_date-own_date cal s)))

-- After a directory is sorted, a date has exactly the files that it had and the files of the
-- directory that are due and carry this date. A file is due when `.tar.gz` is no part of its name, its
-- date is from 20000000 to 30000000, and from the beginning of that day more whole days have passed
-- than the first limit and no more than the second.
pub sort_files_to_map-HasFile :
    (cal : Calendar) (now a r c : ℕ) (workpath : Bytes) (dir : Option (List DirEntry))
    (m : TarFiles) (d : ℕ) (s : Bytes)
    → HasFile d s (sort_files_to_map cal now a r (c ∷ workpath) dir m)
      ↔ (HasFile d s m ⊎ Sorted cal now a r (files_in dir) d s)
unfolding sort_files_to_map
sort_files_to_map-HasFile cal now a r c workpath dir m d s = (
  λ h. elim (HasFile-sort_files cal now a r (files_in dir) m d s h) [
    | inl old ↦ inl old
    | inr new ↦ inr (Picked-Sorted cal now a r (files_in dir) d s new)
  ],
  λ h. sort_files-HasFile cal now a r (files_in dir) m d s (elim h [
    | inl old ↦ inl old
    | inr new ↦ inr (Sorted-Picked cal now a r (files_in dir) d s new)
  ]),
)
