-- ===== src/Proxy/Expire.antt =====
-- `TimeEvent`: the timer with `DoServerTimeout` as its callback.
use thirft_proxy.Prelude.{
  ℕ, ◌<◌, ◌≤◌, ◌≡◌, refl, sym, subst, ◌∙◌, ap, inl, inr, some, List, [], ◌∷◌, ◌++◌, map, arith,
  NotIn, All, length, ◌⊎◌,
}
use thirft_proxy.ListHead.{Links, list_del_init}
use thirft_proxy.ListHead.Remove.{list_del_init-IsRing}
use thirft_proxy.Timer.{success, fire, set_links}
use thirft_proxy.Timer.Check.{due, pending, Sorted, IsCallback, fire_all, timer_check_event_lem}
use thirft_proxy.Proxy.{State, timer_node, net_timer, client, destroy_client, call_back, time_event}
use thirft_proxy.Proxy.Invariant.{In, remove_one, InUse, IsProxy}
use thirft_proxy.Proxy.Cells.{In-ne}
use thirft_proxy.Proxy.Destroy.{del_timer_rings}
use thirft_proxy.Proxy.Leave.{Left, Leaving, destroy_client-Left, destroy_client-IsProxy}

relinked-InUse :
    (s : State) (l : Links) (fds : ℕ → List ℕ) (c : ℕ) → InUse s fds c → InUse (set_links l s) fds c
relinked-InUse s l fds c u = record {
  ne_null = u.ne_null;
  in_bounds = u.in_bounds;
  found = u.found;
  on_fd = u.on_fd;
  timed = u.timed;
  owned = u.owned;
}

relinked-All :
    (s : State) (l : Links) (fds : ℕ → List ℕ) (cs : List ℕ)
    → All (InUse s fds) cs
    → All (InUse (set_links l s) fds) cs
relinked-All s l fds [] h = tt
relinked-All s l fds (c ∷ cs) h = (relinked-InUse s l fds c h.0, relinked-All s l fds cs h.1)

nodes-NotIn : (c : ℕ) (cs : List ℕ) → NotIn (timer_node c) (map timer_node cs) → NotIn c cs
nodes-NotIn c [] h = tt
nodes-NotIn c (x ∷ xs) h = ((λ e. h.0 (ap timer_node e)), nodes-NotIn c xs h.1)

-- A client that the timer has just taken from its list may leave.
taken-Leaving :
    (s : State) (c : ℕ) (cs : List ℕ) (fds : ℕ → List ℕ)
    → IsProxy s (c ∷ cs) fds
    → Leaving (set_links (list_del_init (timer_node c) s.links) s) cs fds c
taken-Leaving s c cs fds v =
    let l = list_del_init (timer_node c) s.links in
    let (timer, rings) =
      del_timer_rings s.extra.max_open_fd s.links fds cs c v.on_fds.ring
        (inl ([], cs, v.timer_ring, refl)) in
    let alone =
      (list_del_init-IsRing s.links net_timer [] (timer_node c) (map timer_node cs)
        v.timer_ring).1 in
    record {
      on_fds = record { ring = rings; own = v.on_fds.own };
      timer_side = inr (timer, alone);
      in_use = relinked-InUse s l fds c v.in_use.0;
      others = relinked-All s l fds cs v.in_use.1;
      apart = nodes-NotIn c cs v.timer_ring.distinct.1.0;
      on_timer = λ fd k. either c cs (fds fd) (v.on_timer fd k);
      known = λ sn k. let (d_in, d_sn) = v.known sn k in (d_in, d_sn);
    }
  where
    either :
        (c : ℕ) (cs xs : List ℕ) → All (λ d. In d (c ∷ cs)) xs → All (λ d. (d ≡ c) ⊎ In d cs) xs
    either c cs [] h = tt
    either c cs (x ∷ xs) h = (h.0, either c cs xs h.1)

fire-destroy_client :
    (s : State) (fds : ℕ → List ℕ) (c : ℕ)
    → InUse s fds c
    → fire call_back (timer_node c) s
      ≡ destroy_client (client c s).ser_seq (set_links (list_del_init (timer_node c) s.links) s)
unfolding fire call_back
fire-destroy_client s fds c u = rw (u.timed, u.owned) refl

-- The cells on the timer's list are those of the clients `ts`, whose fields have not changed.
pub record Timed (s0 s : State) (xs : List ℕ) : Type 0 where
  pub ts : List ℕ
  pub fds : ℕ → List ℕ
  pub cells : xs ≡ map timer_node ts
  pub is_proxy : IsProxy s ts fds
  pub clients : (d : ℕ) → In d ts → client d s ≡ client d s0
  pub queue : s.extra.queue ≡ s0.extra.queue
  pub sent : s.extra.sent ≡ s0.extra.sent

module _ (s0 : State) where
  fired-Left :
      (s : State) (c : ℕ) (cs : List ℕ) (fds : ℕ → List ℕ)
      → IsProxy s (c ∷ cs) fds
      → Left
          (set_links (list_del_init (timer_node c) s.links) s)
          (fire call_back (timer_node c) s)
          (client c s).ser_seq
          c
  fired-Left s c cs fds v =
      let u = v.in_use.0 in
      rw (fire-destroy_client s fds c u) (
        destroy_client-Left (client c s).ser_seq c
          (set_links (list_del_init (timer_node c) s.links) s) u.found u.ne_null)

  fired-Timed :
      (s : State) (x : ℕ) (xs ts : List ℕ)
      → x ∷ xs ≡ map timer_node ts
      → (v : Timed s0 s (x ∷ xs)) → v.ts ≡ ts
      → Timed s0 (fire call_back x s) xs
  fired-Timed s x xs [] e v q = cc
  fired-Timed s x xs (c ∷ cs) e v q =
      let p : IsProxy s (c ∷ cs) v.fds = subst (λ k. IsProxy s k v.fds) q v.is_proxy in
      let at : x ≡ timer_node c = cc in
      let left = fired-Left s c cs v.fds p in
      rw (at) (record {
        ts = cs;
        fds = λ fd. remove_one c (v.fds fd);
        cells = cc;
        is_proxy = rw (fire-destroy_client s v.fds c p.in_use.0) (
            destroy_client-IsProxy (set_links (list_del_init (timer_node c) s.links) s) cs v.fds c
              (taken-Leaving s c cs v.fds p));
        clients = λ d h.
            left.clients d (In-ne d c cs h (nodes-NotIn c cs p.timer_ring.distinct.1.0))
            ∙ v.clients d (subst (In d) (sym q) (inr h));
        queue = left.queue ∙ v.queue;
        sent = left.sent ∙ v.sent;
      })

  fired_times :
      (s : State) (c : ℕ) (cs us : List ℕ) (fds : ℕ → List ℕ)
      → IsProxy s (c ∷ cs) fds
      → NotIn (timer_node c) (map timer_node us)
      → All
          (λ y. ((fire call_back (timer_node c) s).events y).expire_time ≡ (s.events y).expire_time)
          (map timer_node us)
  fired_times s c cs [] fds v h = tt
  fired_times s c cs (u ∷ us) fds v h = (
    ap (λ e. e.expire_time) ((fired-Left s c cs fds v).events (timer_node u) h.0),
    fired_times s c cs us fds v h.1,
  )

  same_times :
      (s : State) (x : ℕ) (xs ts : List ℕ) (fds : ℕ → List ℕ)
      → x ∷ xs ≡ map timer_node ts
      → IsProxy s ts fds
      → All (λ y. ((fire call_back x s).events y).expire_time ≡ (s.events y).expire_time) xs
  same_times s x xs [] fds e v = cc
  same_times s x xs (c ∷ cs) fds e v =
      let at : x ≡ timer_node c = cc in
      let rest : xs ≡ map timer_node cs = cc in
      rw (at, rest) (fired_times s c cs cs fds v v.timer_ring.distinct.1.0)

  Timed-IsCallback : IsCallback call_back net_timer (Timed s0)
  Timed-IsCallback = record {
    ring = λ s xs v. rw (v.cells) v.is_proxy.timer_ring;
    fired = λ s x xs v. fired-Timed s x xs v.ts v.cells v refl;
    same = λ s x xs v. same_times s x xs v.ts v.fds v.cells v.is_proxy;
  }

-- Where the invariant holds and the timer's list is in the order of the times, with fuel for every
-- client, `TimeEvent` ends. It handles, in order, the timeouts that are over: those clients leave
-- the program's lists and its map, the others stay in their order with timeouts that are not over,
-- the invariant holds of them, and neither the fields of the clients that stay, nor the queue, nor
-- what was sent changes.
pub time_event_lem :
    (fuel now : ℕ) (s : State) (ts : List ℕ) (fds : ℕ → List ℕ)
    → IsProxy s ts fds
    → Sorted s (map timer_node ts)
    → length (map timer_node ts) < fuel
    → let over = due now s (map timer_node ts) in
      (t : State) × (time_event fuel now s ≡ some (success, t))
      × (v : Timed s t (pending now s (map timer_node ts))) × (map timer_node ts
          ≡ over ++ map timer_node v.ts)
      × All (λ x. (s.events x).expire_time < now) over
      × All (λ x. now ≤ (s.events x).expire_time) (map timer_node v.ts)
unfolding time_event
time_event_lem fuel now s ts fds p o h =
    let start : Timed s s (map timer_node ts) = record {
      ts = ts;
      fds = fds;
      cells = refl;
      is_proxy = p;
      clients = λ d k. refl;
      queue = refl;
      sent = refl;
    } in
    let (run, v, whole, over, later) =
      timer_check_event_lem call_back net_timer (Timed s) (Timed-IsCallback s) now fuel s
        (map timer_node ts) (λ e. omega (arith, e)) start o h in
    (
      fire_all call_back (due now s (map timer_node ts)) s,
      run,
      v,
      rw (← v.cells) (sym whole),
      over,
      rw (← v.cells) later,
    )
