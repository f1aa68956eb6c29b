-- ===== src/LogProcessor/Tar.antt =====
-- Which days are put in archives.
use thirft_proxy.Prelude.{
  ℕ, zero, suc, ◌≤◌, ◌≡◌, refl, subst, sym, ◌≢◌, ◌⊎◌, inl, inr, not, ◌||◌, if◌then◌else◌, Bool,
  true, false, All, List, [], ◌∷◌, map, length, arith,
}
use thirft_proxy.Text.{Bytes}
use thirft_proxy.LogProcessor.{TarFiles}
use thirft_proxy.LogProcessor.Calls.{
  Tarred, with_call, with_kept, tar_call, join_lines, is_empty, tar_loop, max_sort_day,
  tar_map_files,
}

abbrev HasNames : ℕ × List Bytes → Type 0
HasNames (date, names) = names ≢ []

tar_loop-all :
    (count : ℕ) (can_write : Bytes → Bool) (m : TarFiles)
    → ((text : Bytes) → can_write text ≡ true)
    → All HasNames m
    → length m ≤ count
    → tar_loop count can_write m ≡ (map tar_call m, [])
unfolding tar_loop join_lines
tar_loop-all zero can_write [] w h l = refl
tar_loop-all zero can_write (day ∷ m) w h l = absurd (omega arith)
tar_loop-all (suc count) can_write [] w h l = refl
tar_loop-all (suc count) can_write ((date, []) ∷ m) w h l = absurd (h.0 refl)
tar_loop-all (suc count) can_write ((date, [] ∷ names) ∷ m) w h l =
    rw (w (join_lines ([] ∷ names)), tar_loop-all count can_write m w h.1 (omega arith)) refl
tar_loop-all (suc count) can_write ((date, (c ∷ s) ∷ names) ∷ m) w h l =
    rw (w (join_lines ((c ∷ s) ∷ names)), tar_loop-all count can_write m w h.1 (omega arith)) refl

-- Up to the limit, and when the lists can be written, each day with files gets its archive.
pub tar_map_files-all :
    (can_write : Bytes → Bool) (m : TarFiles)
    → ((text : Bytes) → can_write text ≡ true)
    → All HasNames m
    → length m ≤ max_sort_day
    → tar_map_files can_write m ≡ (map tar_call m, [])
unfolding tar_map_files
tar_map_files-all can_write m w h l = tar_loop-all max_sort_day can_write m w h l

abbrev pub Has : {A : Type 0} → A → List A → Type 0
Has x [] = ⊥
Has x (y ∷ ys) = (x ≡ y) ⊎ Has x ys

abbrev Treated : ℕ × List Bytes → Tarred → Type 0
Treated day t = Has (tar_call day) t.0 ⊎ Has day t.1

day-Treated :
    (b : Bool) (day : ℕ × List Bytes) (t : Tarred)
    → Treated day (if b then with_kept day t else with_call (tar_call day) t)
day-Treated true day (calls, kept) = inr (inl refl)
day-Treated false day (calls, kept) = inl (inl refl)

later-Treated :
    (b : Bool) (first day : ℕ × List Bytes) (t : Tarred)
    → Treated day t
    → Treated day (if b then with_kept first t else with_call (tar_call first) t)
later-Treated true first day (calls, kept) (inl h) = inl h
later-Treated true first day (calls, kept) (inr h) = inr (inr h)
later-Treated false first day (calls, kept) (inl h) = inl (inr h)
later-Treated false first day (calls, kept) (inr h) = inr h

tar_loop-Treated :
    (count : ℕ) (can_write : Bytes → Bool) (m : TarFiles) (day : ℕ × List Bytes)
    → Has day m
    → Treated day (tar_loop count can_write m)
unfolding tar_loop
tar_loop-Treated zero can_write m day h = inr h
tar_loop-Treated (suc count) can_write [] day h = absurd h
tar_loop-Treated (suc count) can_write (first ∷ m) day (inl e) =
    subst (λ x. Treated x (tar_loop (suc count) can_write (first ∷ m))) (sym e)
      (day-Treated (is_empty (join_lines first.1) || not (can_write (join_lines first.1))) first
        (tar_loop count can_write m))
tar_loop-Treated (suc count) can_write (first ∷ m) day (inr h) =
    later-Treated (is_empty (join_lines first.1) || not (can_write (join_lines first.1))) first day
      (tar_loop count can_write m) (tar_loop-Treated count can_write m day h)

-- Whatever fails, no day is lost: it is given to `tar` or stays in the map for the next time.
pub tar_map_files-Treated :
    (can_write : Bytes → Bool) (m : TarFiles) (day : ℕ × List Bytes)
    → Has day m
    → Has (tar_call day) (tar_map_files can_write m).0 ⊎ Has day (tar_map_files can_write m).1
unfolding tar_map_files
tar_map_files-Treated can_write m day h = tar_loop-Treated max_sort_day can_write m day h
