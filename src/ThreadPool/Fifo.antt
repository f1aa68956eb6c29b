-- ===== src/ThreadPool/Fifo.antt =====
-- What holds of the queue in every order of the threads' steps.
use thirft_proxy.Prelude.{
  ℕ, ◌≤◌, ◌<◌, ◌≡◌, ◌≢◌, refl, sym, subst, ◌∙◌, ap, Bool, true, false, Option, none, some, List, [],
  ◌∷◌, ◌++◌, append_assoc, length, length-append, All, All-append, Bool-cases, inl, inr, ◌==◌,
  arith, if◌then◌else◌,
}
use thirft_proxy.ThreadPool.{
  ThreadPool, put, take, front, System, Step, started, stopped, was_put, looked, took_task,
  ran_task, Reachable, at_first, then_step, took,
}

-- What was taken and what is in the queue are what was put, in its order; no null task waits.
pub record IsFifo (max : ℕ) (s : System) : Type 0 where
  pub order : s.taken ++ s.pool.queue ≡ s.puts
  pub bound : length s.pool.queue ≤ max
  pub size : s.pool.max_queue_size ≡ max
  pub no_null : All (λ t. t ≢ 0) s.pool.queue

put-queue :
    (t : ℕ) (p q : ThreadPool)
    → put t p ≡ some q
    → (length p.queue ≢ p.max_queue_size)
      × (q.queue ≡ p.queue ++ t ∷ [])
      × (q.max_queue_size ≡ p.max_queue_size)
unfolding put
put-queue t p q e = elim (Bool-cases (length p.queue == p.max_queue_size)) [
  | inl h ↦ absurd (none-some (rw h at e))
  | inr h ↦
      let f : some (record p { queue = p.queue ++ t ∷ [] }) ≡ some q = rw h at e in
      let g : record p { queue = p.queue ++ t ∷ [] } ≡ q = cc in
      (
        ground (arith, h),
        ap (λ (r : ThreadPool). r.queue) (sym g),
        ap (λ (r : ThreadPool). r.max_queue_size) (sym g),
      )
]
  where
    none-some : none ≡ some q → ⊥
    none-some z = cc

take-queue :
    (t : ℕ) (p q : ThreadPool)
    → take p ≡ some (t, q)
    → All (λ x. x ≢ 0) p.queue
    → (took t [] ++ q.queue ≡ p.queue) × (q.max_queue_size ≡ p.max_queue_size)
unfolding take
take-queue t p q e h = from_front p.queue refl e h
  where
    from_front :
        (xs : List ℕ)
        → p.queue ≡ xs
        → front xs p ≡ some (t, q)
        → All (λ x. x ≢ 0) xs
        → (took t [] ++ q.queue ≡ xs) × (q.max_queue_size ≡ p.max_queue_size)
    from_front [] at e h =
        let (zero_task, same) = idle p.is_running e in rw (← zero_task, ← same) (at, refl)
      where
        idle :
            (b : Bool)
            → ◌≡◌ {A = Option (ℕ × ThreadPool)} (if b then none else some (0, p)) (some (t, q))
            → (0 ≡ t) × (p ≡ q)
        idle true z = cc
        idle false z = (cc, cc)
    from_front (x ∷ xs) at e h =
        let first : x ≡ t = cc in
        let rest : record p { queue = xs } ≡ q = cc in
        let live : (x == 0) ≡ false = ground (arith, h.0) in rw (← first, ← rest, live) (refl, refl)

took-append : (t : ℕ) (ts xs : List ℕ) → took t ts ++ xs ≡ ts ++ (took t [] ++ xs)
took-append t ts xs = elim (Bool-cases (t == 0)) [
  | inl h ↦ rw h refl
  | inr h ↦ rw h (append_assoc ts (t ∷ []) xs)
]

took-All :
    (t : ℕ) (xs ys : List ℕ) → took t [] ++ ys ≡ xs → All (λ x. x ≢ 0) xs → All (λ x. x ≢ 0) ys
took-All t xs ys e h = elim (Bool-cases (t == 0)) [
  | inl z ↦ let f : ys ≡ xs = rw z at e in rw f h
  | inr z ↦ let f : t ∷ ys ≡ xs = rw z at e in (subst (All (λ x. x ≢ 0)) (sym f) h).1
]

took-length : (t : ℕ) (xs ys : List ℕ) → took t [] ++ ys ≡ xs → length ys ≤ length xs
took-length t xs ys e = rw (← e) (omega (arith, length-append (took t []) ys))

Step-IsFifo : (max : ℕ) (s t : System) → IsFifo max s → Step s t → IsFifo max t
Step-IsFifo max s t v started = record {
  order = v.order;
  bound = v.bound;
  size = v.size;
  no_null = v.no_null;
}
Step-IsFifo max s t v stopped = record {
  order = v.order;
  bound = v.bound;
  size = v.size;
  no_null = v.no_null;
}
Step-IsFifo max s t v (was_put x q nz e) =
    let (room, at, size) = put-queue x s.pool q e in
    record {
      order = rw (at, ← v.order) (sym (append_assoc s.taken s.pool.queue (x ∷ [])));
      bound = rw (at) (omega (arith, length-append s.pool.queue (x ∷ []), room, v.bound, v.size));
      size = size ∙ v.size;
      no_null = rw (at) (All-append (λ y. y ≢ 0) s.pool.queue (x ∷ []) v.no_null (nz, tt));
    }
Step-IsFifo max s t v (looked i e) = record {
  order = v.order;
  bound = v.bound;
  size = v.size;
  no_null = v.no_null;
}
Step-IsFifo max s t v (took_task i x q w e) =
    let (at, size) = take-queue x s.pool q e v.no_null in
    record {
      order = took-append x s.taken q.queue ∙ ap (◌++◌ s.taken) at ∙ v.order;
      bound = omega (arith, took-length x s.pool.queue q.queue at, v.bound);
      size = size ∙ v.size;
      no_null = took-All x s.pool.queue q.queue at v.no_null;
    }
Step-IsFifo max s t v (ran_task i x e) = record {
  order = v.order;
  bound = v.bound;
  size = v.size;
  no_null = v.no_null;
}

-- In every order of the steps of the threads, from a new pool of `max` places on: the tasks that
-- workers took, followed by those in the queue, are the tasks that were put, in that order; the
-- queue never holds more than `max` of them, and none of them is null.
pub Reachable-IsFifo : (max : ℕ) (s : System) → Reachable max s → IsFifo max s
Reachable-IsFifo max s at_first = record {
  order = refl;
  bound = omega arith;
  size = refl;
  no_null = tt;
}
Reachable-IsFifo max t (then_step {s} r k) = Step-IsFifo max s t (Reachable-IsFifo max s r) k

-- In every reachable state of a pool with at least one place: when `put` has to wait, `take` does
-- not.
pub put-take :
    (max t : ℕ) (s : System) → Reachable max s → 0 < max → put t s.pool ≡ none → take s.pool ≢ none
unfolding put take
put-take max t s r pos w e =
    let v = Reachable-IsFifo max s r in waits s.pool.queue e (omega (arith, full, v.size))
  where
    waits : (xs : List ℕ) → front xs s.pool ≡ none → 0 < length xs → ⊥
    waits [] e h = omega (arith, h)
    waits (x ∷ xs) e h = cc

    full : length s.pool.queue ≡ s.pool.max_queue_size
    full = elim (Bool-cases (length s.pool.queue == s.pool.max_queue_size)) [
      | inl h ↦ ground (arith, h)
      | inr h ↦ absurd (room (rw h at w))
    ]
      where
        room : {q : ThreadPool} → some q ≡ none → ⊥
        room z = cc
