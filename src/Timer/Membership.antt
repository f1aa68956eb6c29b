-- ===== src/Timer/Membership.antt =====
-- Adding and deleting events, and the test whether an event is on a list.
use thirft_proxy.Prelude.{
  ℕ, ◌≤◌, ◌≡◌, ◌≢◌, ap, Option, List, [], ◌∷◌, ◌++◌, arith, All, NotIn, true, false,
}
use thirft_proxy.ListHead.Ring.{IsRing, Chain-split, prev-ne}
use thirft_proxy.ListHead.Insert.{list_add_tail-IsRing}
use thirft_proxy.ListHead.Remove.{list_del_init-IsRing}
use thirft_proxy.Timer.{
  Event, Store, success, timer_add_event, timer_del_event, is_event_works, cleared,
}
use thirft_proxy.Timer.Check.{Sorted}

abbrev pub event_of : {F : Type 0} → ℕ → Option F → ℕ → ℕ → Event F
event_of expire_time func owner arg = record {
  expire_time = expire_time;
  func = func;
  owner = owner;
  arg = arg;
}

module _ {F E : Type 0} where
  -- `t` has the events of `s` but for the one at `e`.
  abbrev pub SameEvents : ℕ → (s t : Store F E) → Type 0
  SameEvents e s t = (a : ℕ) → e ≢ a → t.events a ≡ s.events a

  All-before :
      (s t : Store F E) (e m n : ℕ) (xs : List ℕ)
      → SameEvents e s t
      → NotIn e xs
      → (t.events e).expire_time ≡ n
      → m ≤ n
      → All (λ y. m ≤ (s.events y).expire_time) xs
      → All (λ y. m ≤ (t.events y).expire_time) (xs ++ e ∷ [])
  All-before s t e m n [] same o q h a = (omega arith, tt)
  All-before s t e m n (x ∷ xs) same o q h a =
      (rw (same x o.0) a.0, All-before s t e m n xs same o.1 q h a.1)

  Sorted-snoc :
      (s t : Store F E) (e n : ℕ) (xs : List ℕ)
      → SameEvents e s t
      → NotIn e xs
      → (t.events e).expire_time ≡ n
      → All (λ y. (s.events y).expire_time ≤ n) xs
      → Sorted s xs
      → Sorted t (xs ++ e ∷ [])
  Sorted-snoc s t e n [] same o q h a = (tt, tt)
  Sorted-snoc s t e n (x ∷ xs) same o q h a = (
    rw (same x o.0) (All-before s t e (s.events x).expire_time n xs same o.1 q h.0 a.0),
    Sorted-snoc s t e n xs same o.1 q h.1 a.1,
  )

  -- A member of a list other than its head is not linked to itself.
  member_works :
      (s : Store F E) (head : ℕ) (xs : List ℕ) (e : ℕ) (ys : List ℕ)
      → e ≢ 0
      → e ≢ head
      → NotIn e xs
      → IsRing s.links head (xs ++ e ∷ ys)
      → is_event_works e s ≡ true
  unfolding is_event_works
  member_works s head xs e ys nz ne o r =
      ground
        (arith, prev-ne s.links head xs e e ne o (Chain-split s.links head xs e ys head r.chain).0)

  -- An event that is on no list, added with a time no less than those on the list, becomes its last
  -- entry: the list stays in the order of the times, the event carries what was given, it counts as
  -- working, and no other event changes.
  pub timer_add_event_lem :
      (timer event time : ℕ) (func : Option F) (owner arg : ℕ) (s : Store F E) (xs : List ℕ)
      → timer ≢ 0
      → event ≢ 0
      → event ≢ timer
      → NotIn event xs
      → IsRing s.links timer xs
      → Sorted s xs
      → All (λ x. (s.events x).expire_time ≤ time) xs
      → let (code, t) = timer_add_event timer event time func owner arg s in
        (code ≡ success)
        × IsRing t.links timer (xs ++ event ∷ [])
        × Sorted t (xs ++ event ∷ [])
        × (t.events event ≡ event_of time func owner arg)
        × (is_event_works event t ≡ true)
        × SameEvents event s t
  unfolding timer_add_event
  timer_add_event_lem timer event time func owner arg s xs tz ez ne o r srt le =
      let t = (timer_add_event timer event time func owner arg s).1 in
      let same : SameEvents event s t = λ a h. ground (arith, h) in
      let at : t.events event ≡ event_of time func owner arg = ground arith in
      let ring : IsRing t.links timer (xs ++ event ∷ []) =
        ground (arith, list_add_tail-IsRing s.links event timer xs ne o r) in
      (
        ground arith,
        ring,
        Sorted-snoc s t event time xs same o (ap (λ (v : Event F). v.expire_time) at) le srt,
        at,
        member_works t timer xs event [] ez ne o ring,
        same,
      )

  -- Deleting an event of a list takes just that event out, clears its fields, leaves it not
  -- working, and changes no other event.
  pub timer_del_event_lem :
      (timer event : ℕ) (s : Store F E) (xs ys : List ℕ)
      → event ≢ 0
      → IsRing s.links timer (xs ++ event ∷ ys)
      → let (code, t) = timer_del_event event s in
        (code ≡ success)
        × IsRing t.links timer (xs ++ ys)
        × (t.events event ≡ cleared)
        × (is_event_works event t ≡ false)
        × SameEvents event s t
  unfolding timer_del_event is_event_works
  timer_del_event_lem timer event s xs ys ez r =
      let (rest, own) = list_del_init-IsRing s.links timer xs event ys r in
      (
        ground arith,
        ground (arith, rest),
        ground arith,
        ground (arith, own.chain),
        λ a h. ground (arith, h),
      )
