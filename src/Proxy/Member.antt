-- ===== src/Proxy/Member.antt =====
-- A client on the timer's list may leave, and what `DestroyClient` does to it.
use thirft_proxy.Prelude.{
  ℕ, ◌≡◌, sym, subst, ◌⊎◌, inl, inr, List, [], ◌∷◌, map, arith, NotIn, Distinct, All, Bool-cases,
  ◌==◌,
}
use thirft_proxy.ListHead.Ring.{IsRing}
use thirft_proxy.Timer.{cleared}
use thirft_proxy.ClientInfo.{get_client_info}
use thirft_proxy.Mempool.{mempool_free}
use thirft_proxy.Proxy.{State, timer_node, net_timer, client, destroy_client}
use thirft_proxy.Proxy.Invariant.{In, remove_one, InUse, IsProxy}
use thirft_proxy.Proxy.Cells.{In-split, In-remove_one, All-remove_one}
use thirft_proxy.Proxy.Leave.{Leaving, destroy_client-Left, destroy_client-IsProxy}

with_c : (c d : ℕ) (ts : List ℕ) → In d ts → (d ≡ c) ⊎ In d (remove_one c ts)
with_c c d ts h = elim (Bool-cases (d == c)) [
  | inl e ↦ inl (ground (arith, e))
  | inr e ↦ inr (In-remove_one d c ts h (ground (arith, e)))
]

All-with_c :
    (c : ℕ) (ts xs : List ℕ)
    → All (λ d. In d ts) xs
    → All (λ d. (d ≡ c) ⊎ In d (remove_one c ts)) xs
All-with_c c ts [] h = tt
All-with_c c ts (x ∷ xs) h = (with_c c x ts h.0, All-with_c c ts xs h.1)

NotIn-remove_one : (c : ℕ) (ts : List ℕ) → Distinct (map timer_node ts) → NotIn c (remove_one c ts)
unfolding remove_one
NotIn-remove_one c [] h = tt
NotIn-remove_one c (x ∷ xs) h = elim (Bool-cases (c == x)) [
  | inl e ↦ rw e (timers-Distinct c x xs h.0 (ground (arith, e)))
  | inr e ↦ rw e (ground (arith, e), NotIn-remove_one c xs h.1)
]
  where
    timers-Distinct :
        (c x : ℕ) (xs : List ℕ) → NotIn (timer_node x) (map timer_node xs) → c ≡ x → NotIn c xs
    timers-Distinct c x [] h e = tt
    timers-Distinct c x (y ∷ ys) h e =
        ((λ q. h.0 (omega (arith, e, q))), timers-Distinct c x ys h.1 e)

All-In : (P : ℕ → Type 0) (c : ℕ) (ts : List ℕ) → All P ts → In c ts → P c
All-In P c [] a h = absurd h
All-In P c (x ∷ xs) a (inl e) = subst P (sym e) a.0
All-In P c (x ∷ xs) a (inr h) = All-In P c xs a.1 h

-- A client on the timer's list may leave.
pub In-Leaving :
    (s : State) (ts : List ℕ) (fds : ℕ → List ℕ) (c : ℕ)
    → IsProxy s ts fds
    → In c ts
    → Leaving s (remove_one c ts) fds c
In-Leaving s ts fds c v h =
    let (a, b, e, q) = In-split c ts h in
    record {
      on_fds = v.on_fds;
      timer_side =
          inl (a, b, subst (λ xs. IsRing s.links net_timer (map timer_node xs)) e v.timer_ring, q);
      in_use = All-In (InUse s fds) c ts v.in_use h;
      others = All-remove_one (InUse s fds) c ts v.in_use;
      apart = NotIn-remove_one c ts v.timer_ring.distinct.1;
      on_timer = λ fd k. All-with_c c ts (fds fd) (v.on_timer fd k);
      known = λ sn k.
          let (d_in, d_sn) = v.known sn k in
          (with_c c (get_client_info sn s.extra.registry) ts d_in, d_sn);
    }

absent : (sn : ℕ) (s : State) → get_client_info sn s.extra.registry ≡ 0 → destroy_client sn s ≡ s
unfolding destroy_client
absent sn s h = ground (arith, h)

-- Where the invariant holds, `DestroyClient` with the number of a client on the timer's list takes
-- that client, and no other, out of the timer's list and its descriptor's list and keeps the
-- invariant. The number is no longer known, the client's event is clear, its memory went back to
-- the pool, neither the queue nor what was sent changes, and a second call changes nothing.
pub destroy_client_lem :
    (s : State) (ts : List ℕ) (fds : ℕ → List ℕ) (c : ℕ)
    → IsProxy s ts fds
    → In c ts
    → let sn = (client c s).ser_seq in
      let t = destroy_client sn s in
      let freed = mempool_free c s.extra.memory s.extra.mempool in
      IsProxy t (remove_one c ts) (λ fd. remove_one c (fds fd))
      × (get_client_info sn t.extra.registry ≡ 0)
      × (t.events (timer_node c) ≡ cleared)
      × ((t.extra.memory ≡ freed.1) × (t.extra.mempool ≡ freed.2))
      × ((t.extra.queue ≡ s.extra.queue) × (t.extra.sent ≡ s.extra.sent))
      × (destroy_client sn t ≡ t)
destroy_client_lem s ts fds c v h =
    let p = In-Leaving s ts fds c v h in
    let sn = (client c s).ser_seq in
    let left = destroy_client-Left sn c s p.in_use.found p.in_use.ne_null in
    let gone : get_client_info sn (destroy_client sn s).extra.registry ≡ 0 =
      ground (arith, left.lookup sn) in
    (
      destroy_client-IsProxy s (remove_one c ts) fds c p,
      gone,
      left.own_event,
      (left.memory, left.mempool),
      (left.queue, left.sent),
      absent sn (destroy_client sn s) gone,
    )
