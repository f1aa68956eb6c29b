-- ===== src/Timer.antt =====
-- utils/timer.cpp: timed events on a `list_head` list. An event has the address of its
-- `timer_node`, which is its first field. `extra` is the rest of the program's state, which a
-- callback may change too.
use thirft_proxy.Prelude.{
  ℕ, zero, suc, ◌≤◌, ◌≡◌, Bool, true, false, not, ◌&&◌, Option, none, some, ◌==◌, leb,
  if◌then◌else◌,
}
use thirft_proxy.ListHead.{Links, list_add_tail, list_del_init, init_list_head}
pub mod Check
pub mod Membership
pub mod Uninit

pub record Event (F : Type 0) : Type 0 where
  pub expire_time : ℕ
  pub func : Option F
  pub owner : ℕ
  pub arg : ℕ

pub record Store (F E : Type 0) : Type 0 where
  pub links : Links
  pub events : ℕ → Event F
  pub extra : E

-- The `int` that a function returns: 0, or -1.
pub data Code : Type 0 where
  success failure : Code

abbrev pub cleared : {F : Type 0} → Event F
cleared = record { expire_time = 0; func = none; owner = 0; arg = 0 }

module _ {F E : Type 0} where
  abbrev pub set_links : Links → Store F E → Store F E
  set_links l s = record s { links = l }

  abbrev pub set_event : ℕ → Event F → Store F E → Store F E
  set_event p v s = record s { events = λ q. if p == q then v else s.events q }

  unfoldable pub timer_init : ℕ → Store F E → Code × Store F E
  timer_init timer s =
      if timer == 0 then (failure, s) else (success, set_links (init_list_head timer s.links) s)

  unfoldable pub event_init : ℕ → Store F E → Code × Store F E
  event_init event s =
      if event == 0
      then (failure, s)
      else (success, set_links (init_list_head event s.links) (set_event event cleared s))

  unfoldable pub timer_add_event : ℕ → ℕ → ℕ → Option F → ℕ → ℕ → Store F E → Code × Store F E
  timer_add_event timer event expire_time func owner arg s =
      if timer == 0 then (failure, s) else if event == 0 then (failure, s) else (
        success,
        set_links (list_add_tail event timer s.links) (
            set_event event
              (record { expire_time = expire_time; func = func; owner = owner; arg = arg }) s),
      )

  unfoldable pub timer_del_event : ℕ → Store F E → Code × Store F E
  timer_del_event event s =
      if event == 0
      then (failure, s)
      else (success, set_event event cleared (set_links (list_del_init event s.links) s))

  unfoldable pub is_event_works : ℕ → Store F E → Bool
  is_event_works event s =
      if event == 0
      then false
      else not ((s.links.prev event == event) && (s.links.next event == event))

  -- The loop of `timer_uninit`: `pos` and the node after it are read before the node goes.
  unfoldable pub uninit_loop : ℕ → ℕ → ℕ → ℕ → Store F E → Option (Store F E)
  uninit_loop zero timer pos next s = none
  uninit_loop (suc fuel) timer pos next s =
      let s' = (timer_del_event pos s).1 in
      let rest = uninit_loop fuel timer next (s'.links.next next) s' in
      if pos == timer then some s else rest

  abbrev reset : ℕ → Option (Store F E) → Option (Code × Store F E)
  reset timer none = none
  reset timer (some s) = some (success, set_links (init_list_head timer s.links) s)

  unfoldable pub timer_uninit : ℕ → ℕ → Store F E → Option (Code × Store F E)
  timer_uninit fuel timer s =
      let first = s.links.next timer in
      let rest = uninit_loop fuel timer first (s.links.next first) s in
      if timer == 0 then some (failure, s) else reset timer rest

module _ {F E : Type 0} (call : F → ℕ → ℕ → Store F E → Store F E) where
  -- `if (event->func) event->func(event->owner, event->arg);`
  abbrev pub run_func : Event F → Option F → Store F E → Store F E
  run_func event none s = s
  run_func event (some f) s = call f event.owner event.arg s

  -- One round of the loop of `timer_check_event`.
  unfoldable pub fire : ℕ → Store F E → Store F E
  fire pos s =
      let s' = set_links (list_del_init pos s.links) s in
      run_func (s'.events pos) (s'.events pos).func s'

  unfoldable pub check_loop : ℕ → ℕ → ℕ → ℕ → ℕ → Store F E → Option (Store F E)
  check_loop zero now timer pos next s = none
  check_loop (suc fuel) now timer pos next s =
      let s' = fire pos s in
      let rest = check_loop fuel now timer next (s'.links.next next) s' in
      if pos == timer then some s else if leb now (s.events pos).expire_time then some s else rest

  abbrev succeed : Option (Store F E) → Option (Code × Store F E)
  succeed none = none
  succeed (some s) = some (success, s)

  -- `now` is what `time(NULL)` returns, `fuel` bounds the rounds; `none` when it runs out.
  unfoldable pub timer_check_event : ℕ → ℕ → ℕ → Store F E → Option (Code × Store F E)
  timer_check_event fuel now timer s =
      let first = s.links.next timer in
      let rest = check_loop fuel now timer first (s.links.next first) s in
      if timer == 0 then some (failure, s) else succeed rest
