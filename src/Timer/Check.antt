-- ===== src/Timer/Check.antt =====
-- `timer_check_event` against its specification: it fires the events that are over, in the order
-- of the list, and stops at the first that is not.
use thirft_proxy.Prelude.{
  ℕ, zero, suc, ◌≤◌, ◌<◌, ◌≡◌, ◌≢◌, refl, sym, ◌∙◌, ap, Option, none, some, List, [], ◌∷◌, ◌++◌,
  arith, length, leb, if◌then◌else◌, All, Bool-cases, inl, inr,
}
use thirft_proxy.ListHead.{list_del_init}
use thirft_proxy.ListHead.Ring.{IsRing}
use thirft_proxy.Timer.{
  Store, Event, set_links, run_func, fire, check_loop, timer_check_event, success,
}

-- The events before the first that is not over yet, and the others.
module _ {F E : Type 0} (now : ℕ) (s : Store F E) where
  unfoldable pub due : List ℕ → List ℕ
  due [] = []
  due (x ∷ xs) = if leb now (s.events x).expire_time then [] else x ∷ due xs

  unfoldable pub pending : List ℕ → List ℕ
  pending [] = []
  pending (x ∷ xs) = if leb now (s.events x).expire_time then x ∷ xs else pending xs

  pub due-pending : (xs : List ℕ) → due xs ++ pending xs ≡ xs
  unfolding due pending
  due-pending [] = refl
  due-pending (x ∷ xs) = elim (Bool-cases (leb now (s.events x).expire_time)) [
    | inl h ↦ rw h
    | inr h ↦ rw h (ap (◌∷◌ x) (due-pending xs))
  ]

-- The list is in the order of the times.
abbrev pub Sorted : {F E : Type 0} → Store F E → List ℕ → Type 0
Sorted s [] = Unit {0}
Sorted s (x ∷ xs) = All (λ y. (s.events x).expire_time ≤ (s.events y).expire_time) xs × Sorted s xs

module _ {F E : Type 0} (call : F → ℕ → ℕ → Store F E → Store F E) where
  -- What a callback has to keep: an invariant of the state that tells the timer's list. The fired
  -- event leaves the list; the times of the others stay.
  pub record IsCallback (timer : ℕ) (Inv : Store F E → List ℕ → Type 0) : Type 0 where
    pub ring : (s : Store F E) (xs : List ℕ) → Inv s xs → IsRing s.links timer xs
    pub fired : (s : Store F E) (x : ℕ) (xs : List ℕ) → Inv s (x ∷ xs) → Inv (fire call x s) xs
    pub same :
        (s : Store F E) (x : ℕ) (xs : List ℕ)
        → Inv s (x ∷ xs)
        → All (λ y. ((fire call x s).events y).expire_time ≡ (s.events y).expire_time) xs

  -- The function of an event, if it has one, is called with the event's owner and argument.
  abbrev pub called : Option F → Event F → Store F E → Store F E
  called none ev s = s
  called (some f) ev s = call f ev.owner ev.arg s

  -- Each event in turn is taken off its list, and then its function is called.
  unfoldable pub fire_all : List ℕ → Store F E → Store F E
  fire_all [] s = s
  fire_all (x ∷ xs) s =
      fire_all xs (called (s.events x).func (s.events x) (set_links (list_del_init x s.links) s))

  run_func-called :
      (o : Option F) (ev : Event F) (s : Store F E) → run_func call ev o s ≡ called o ev s
  run_func-called none ev s = refl
  run_func-called (some f) ev s = refl

  fire-called :
      (x : ℕ) (s : Store F E)
      → called (s.events x).func (s.events x) (set_links (list_del_init x s.links) s)
        ≡ fire call x s
  unfolding fire
  fire-called x s =
      sym (run_func-called (s.events x).func (s.events x) (set_links (list_del_init x s.links) s))

  fire_all-none : (s : Store F E) → fire_all [] s ≡ s
  unfolding fire_all
  fire_all-none s = refl

  fire_all-fire :
      (x : ℕ) (xs : List ℕ) (s : Store F E) → fire_all (x ∷ xs) s ≡ fire_all xs (fire call x s)
  unfolding fire_all
  fire_all-fire x xs s = ap (fire_all xs) (fire-called x s)

  module _ (timer : ℕ) (Inv : Store F E → List ℕ → Type 0) (ok : IsCallback timer Inv)
      (now : ℕ) where
    Times : (s t : Store F E) → List ℕ → Type 0
    Times s t xs = All (λ y. (t.events y).expire_time ≡ (s.events y).expire_time) xs

    due_same : (s t : Store F E) (xs : List ℕ) → Times s t xs → due now t xs ≡ due now s xs
    unfolding due Times
    due_same s t [] h = refl
    due_same s t (x ∷ xs) h = rw (h.0, due_same s t xs h.1)

    pending_same :
        (s t : Store F E) (xs : List ℕ) → Times s t xs → pending now t xs ≡ pending now s xs
    unfolding pending Times
    pending_same s t [] h = refl
    pending_same s t (x ∷ xs) h = rw (h.0, pending_same s t xs h.1)

    ring_next :
        (s t : Store F E) (x : ℕ) (xs : List ℕ)
        → IsRing s.links timer (x ∷ xs)
        → IsRing t.links timer xs
        → s.links.next x ≡ t.links.next timer
    ring_next s t x [] r q = r.chain.2.0 ∙ sym q.chain.0
    ring_next s t x (y ∷ ys) r q = r.chain.2.0 ∙ sym q.chain.0

    check_loop-fire_all :
        (fuel : ℕ) (s : Store F E) (xs : List ℕ)
        → Inv s xs
        → length xs < fuel
        → check_loop call fuel now timer (s.links.next timer) (s.links.next (s.links.next timer)) s
          ≡ some (fire_all (due now s xs) s)
    unfolding check_loop due Times
    check_loop-fire_all zero s xs v h = absurd (omega arith)
    check_loop-fire_all (suc fuel) s [] v h =
        let none_fired = fire_all-none s in
        let e : s.links.next timer ≡ timer = (ok.ring s [] v).chain.0 in ground (arith, none_fired)
    check_loop-fire_all (suc fuel) s (x ∷ xs) v h =
        let r = ok.ring s (x ∷ xs) v in
        let v' = ok.fired s x xs v in
        let ne : x ≢ timer = λ e. r.distinct.0.0 (sym e) in
        let ih = check_loop-fire_all fuel (fire call x s) xs v' (omega arith) in
        let step = ring_next s (fire call x s) x xs r (ok.ring _ xs v') in
        rw (r.chain.0) (elim (Bool-cases (leb now (s.events x).expire_time)) [
          | inl over ↦ ground (arith, over, fire_all-none s)
          | inr due_now ↦
              rw (due_now, step, fire_all-fire x (due now s xs) s)
                (ground (arith, ih, due_same s (fire call x s) xs (ok.same s x xs v)))
        ])

    fire_all-Inv :
        (s : Store F E) (xs : List ℕ)
        → Inv s xs
        → Inv (fire_all (due now s xs) s) (pending now s xs)
    unfolding due pending Times
    fire_all-Inv s [] v = rw (fire_all-none s) v
    fire_all-Inv s (x ∷ xs) v = elim (Bool-cases (leb now (s.events x).expire_time)) [
      | inl over ↦ rw (over, fire_all-none s) v
      | inr due_now ↦
          let same = ok.same s x xs v in
          rw
            (
              due_now,
              fire_all-fire x (due now s xs) s,
              ← due_same s (fire call x s) xs same,
              ← pending_same s (fire call x s) xs same,
            )
            (fire_all-Inv (fire call x s) xs (ok.fired s x xs v))
    ]

due-All :
    {F E : Type 0} (now : ℕ) (s : Store F E) (xs : List ℕ)
    → All (λ x. (s.events x).expire_time < now) (due now s xs)
unfolding due
due-All now s [] = tt
due-All now s (x ∷ xs) = elim (Bool-cases (leb now (s.events x).expire_time)) [
  | inl h ↦ rw h tt
  | inr h ↦ rw h (ground arith, due-All now s xs)
]

All-le :
    {F E : Type 0} (now t : ℕ) (s : Store F E) (xs : List ℕ)
    → now ≤ t
    → All (λ y. t ≤ (s.events y).expire_time) xs
    → All (λ y. now ≤ (s.events y).expire_time) xs
All-le now t s [] h a = tt
All-le now t s (x ∷ xs) h a = (omega arith, All-le now t s xs h a.1)

pending-All :
    {F E : Type 0} (now : ℕ) (s : Store F E) (xs : List ℕ)
    → Sorted s xs
    → All (λ x. now ≤ (s.events x).expire_time) (pending now s xs)
unfolding pending
pending-All now s [] o = tt
pending-All now s (x ∷ xs) o = elim (Bool-cases (leb now (s.events x).expire_time)) [
  | inl h ↦ rw h (ground arith, All-le now _ s xs (ground arith) o.0)
  | inr h ↦ rw h (pending-All now s xs o.1)
]

-- On a list in the order of the times, with fuel for every event and a callback that keeps the
-- rest of the list, `timer_check_event` ends. It takes the events whose time is over off the list, in
-- order, and calls the function of each, if it has one, with the event's owner and argument; the
-- events that it leaves on the list are all not over.
pub timer_check_event_lem :
    {F E : Type 0} (call : F → ℕ → ℕ → Store F E → Store F E) (timer : ℕ)
    (Inv : Store F E → List ℕ → Type 0) (ok : IsCallback call timer Inv) (now fuel : ℕ)
    (s : Store F E) (xs : List ℕ)
    → timer ≢ 0
    → Inv s xs
    → Sorted s xs
    → length xs < fuel
    → (timer_check_event call fuel now timer s ≡ some (success, fire_all call (due now s xs) s))
      × Inv (fire_all call (due now s xs) s) (pending now s xs)
      × (due now s xs ++ pending now s xs ≡ xs)
      × All (λ x. (s.events x).expire_time < now) (due now s xs)
      × All (λ x. now ≤ (s.events x).expire_time) (pending now s xs)
unfolding timer_check_event
timer_check_event_lem call timer Inv ok now fuel s xs nz v o h = (
  ground (arith, check_loop-fire_all call timer Inv ok now fuel s xs v h),
  fire_all-Inv call timer Inv ok now s xs v,
  due-pending now s xs,
  due-All now s xs,
  pending-All now s xs o,
)
