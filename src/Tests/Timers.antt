-- ===== src/Tests/Timers.antt =====
-- utils/timer.cpp on a list of two events.
use thirft_proxy.Prelude.{
  ℕ, ◌≤◌, ◌<◌, ◌≡◌, refl, none, some, List, [], ◌∷◌, ◌++◌, arith, All, true, false,
}
use thirft_proxy.ListHead.{list_add_tail, list_add_between, init_list_head}
use thirft_proxy.ListHead.Ring.{IsRing}
use thirft_proxy.ListHead.Remove.{list_del_init-IsRing}
use thirft_proxy.Timer.{
  Store, success, timer_init, timer_add_event, timer_del_event, timer_check_event, timer_uninit,
  is_event_works, cleared, fire,
}
use thirft_proxy.Timer.Check.{due, pending, Sorted, IsCallback, fire_all, timer_check_event_lem}
use thirft_proxy.Timer.Membership.{event_of, SameEvents, timer_add_event_lem, timer_del_event_lem}
use thirft_proxy.Timer.Uninit.{timer_uninit_lem}

abbrev Stored : Type 0
Stored = Store (Unit {0}) (List (ℕ × ℕ))

abbrev nothing : Stored
nothing = record {
  links = record { next = λ a. 0; prev = λ a. 0 };
  events = λ a. cleared;
  extra = [];
}

abbrev empty : Stored
empty = (timer_init 4 nothing).1

abbrev one : Stored
one = (timer_add_event 4 10 7 (some tt) 11 5 empty).1

-- The list at 4 holds the event 10, over at 7, which has a function, and 20, over at 9.
abbrev two : Stored
two = (timer_add_event 4 20 9 none 20 0 one).1

empty-IsRing : IsRing empty.links 4 []
unfolding timer_init init_list_head
empty-IsRing = record { chain = (refl, refl); distinct = (tt, tt) }

one-IsRing : IsRing one.links 4 (10 ∷ [])
unfolding timer_init timer_add_event init_list_head list_add_tail list_add_between
one-IsRing = record { chain = (refl, refl, (refl, refl)); distinct = omega arith }

two-IsRing : IsRing two.links 4 (10 ∷ 20 ∷ [])
unfolding timer_init timer_add_event init_list_head list_add_tail list_add_between
two-IsRing = record { chain = (refl, refl, (refl, refl, (refl, refl))); distinct = omega arith }

one-Sorted : Sorted one (10 ∷ [])
one-Sorted = (tt, tt)

two-Sorted : Sorted two (10 ∷ 20 ∷ [])
unfolding timer_init timer_add_event
two-Sorted = omega arith

-- A callback that notes its owner and its argument.
abbrev note : Unit {0} → ℕ → ℕ → Stored → Stored
note f owner arg s = record s { extra = (owner, arg) ∷ s.extra }

abbrev OnList : Stored → List ℕ → Type 0
OnList s xs = IsRing s.links 4 xs

fire-OnList : (s : Stored) (x : ℕ) (xs : List ℕ) → OnList s (x ∷ xs) → OnList (fire note x s) xs
unfolding fire
fire-OnList s x xs r = ground (arith, (list_del_init-IsRing s.links 4 [] x xs r).0)

fire_times :
    (s : Stored) (x : ℕ) (xs : List ℕ)
    → All (λ y. ((fire note x s).events y).expire_time ≡ (s.events y).expire_time) xs
unfolding fire
fire_times s x [] = tt
fire_times s x (y ∷ ys) = (ground arith, fire_times s x ys)

note-IsCallback : IsCallback note 4 OnList
note-IsCallback = record {
  ring = λ s xs r. r;
  fired = fire-OnList;
  same = λ s x xs r. fire_times s x xs;
}

one_run : is_event_works 10 one ≡ true
unfolding timer_init timer_add_event init_list_head list_add_tail list_add_between is_event_works
one_run = refl

timer_check_event_lem_example :
    (timer_check_event note 3 8 4 two
      ≡ some (success, fire_all note (due 8 two (10 ∷ 20 ∷ [])) two))
    × OnList (fire_all note (due 8 two (10 ∷ 20 ∷ [])) two) (pending 8 two (10 ∷ 20 ∷ []))
    × (due 8 two (10 ∷ 20 ∷ []) ++ pending 8 two (10 ∷ 20 ∷ []) ≡ 10 ∷ 20 ∷ [])
    × All (λ x. (two.events x).expire_time < 8) (due 8 two (10 ∷ 20 ∷ []))
    × All (λ x. 8 ≤ (two.events x).expire_time) (pending 8 two (10 ∷ 20 ∷ []))
timer_check_event_lem_example =
    timer_check_event_lem note 4 OnList note-IsCallback 8 3 two (10 ∷ 20 ∷ []) (omega arith)
      two-IsRing two-Sorted (omega arith)

one_times : All (λ x. (one.events x).expire_time ≤ 9) (10 ∷ [])
unfolding timer_init timer_add_event
one_times = (omega arith, tt)

timer_add_event_lem_example :
    let (code, t) = timer_add_event 4 20 9 none 20 0 one in
    (code ≡ success)
    × IsRing t.links 4 (10 ∷ 20 ∷ [])
    × Sorted t (10 ∷ 20 ∷ [])
    × (t.events 20 ≡ event_of 9 none 20 0)
    × (is_event_works 20 t ≡ true)
    × SameEvents 20 one t
timer_add_event_lem_example =
    timer_add_event_lem 4 20 9 none 20 0 one (10 ∷ []) (omega arith) (omega arith) (omega arith)
      (omega arith) one-IsRing one-Sorted one_times

timer_del_event_lem_example :
    let (code, t) = timer_del_event 10 two in
    (code ≡ success)
    × IsRing t.links 4 (20 ∷ [])
    × (t.events 10 ≡ cleared)
    × (is_event_works 10 t ≡ false)
    × SameEvents 10 two t
timer_del_event_lem_example = timer_del_event_lem 4 10 two [] (20 ∷ []) (omega arith) two-IsRing

timer_uninit_lem_example :
    (t : Stored) × (timer_uninit 3 4 two ≡ some (success, t))
    × IsRing t.links 4 []
    × All (λ x. t.events x ≡ cleared) (10 ∷ 20 ∷ [])
timer_uninit_lem_example =
    timer_uninit_lem 4 3 two (10 ∷ 20 ∷ []) (omega arith) (omega arith) (omega arith) two-IsRing
