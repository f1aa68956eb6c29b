-- ===== src/Proxy/Leave.antt =====
-- `DestroyClient` on the whole state: one client leaves, and the others stay in use.
use thirft_proxy.Prelude.{
  ℕ, ◌<◌, ◌≡◌, ◌≢◌, sym, ◌∙◌, ap, ◌⊎◌, inl, inr, Option, none, some, refl, List, [], ◌∷◌, map,
  arith, NotIn, Distinct, All, Bool-cases, false, ◌==◌, if◌then◌else◌,
}
use thirft_proxy.ListHead.{list_del_init}
use thirft_proxy.Timer.{timer_del_event, cleared}
use thirft_proxy.Mempool.{MemPool, mempool_free}
use thirft_proxy.ClientInfo.{ClientInfo, get_client_info, remove_client_info, lookup-erase_sn}
use thirft_proxy.Proxy.{State, fd_node, timer_node, client, linked, destroy_client}
use thirft_proxy.Proxy.Invariant.{In, remove_one, InUse, IsFds, IsProxy}
use thirft_proxy.Proxy.Cells.{In-remove_one, All-remove_one}
use thirft_proxy.Proxy.Destroy.{TimerSide, del_fd_rings, del_fd_TimerSide, del_timer_rings}

-- What `DestroyClient` leaves of the state, for a client that is found under its number.
pub record Left (s t : State) (sn c : ℕ) : Type 0 where
  pub links : t.links ≡ list_del_init (timer_node c) (list_del_init (fd_node c) s.links)
  pub own_event : t.events (timer_node c) ≡ cleared
  pub events : (a : ℕ) → timer_node c ≢ a → t.events a ≡ s.events a
  pub lookup :
      (k : ℕ)
      → get_client_info k t.extra.registry
        ≡ (if sn == k then 0 else get_client_info k s.extra.registry)
  pub clients : (d : ℕ) → c ≢ d → client d t ≡ client d s
  pub ser_seq : (d : ℕ) → (client d t).ser_seq ≡ (client d s).ser_seq
  pub max_open_fd : t.extra.max_open_fd ≡ s.extra.max_open_fd
  pub timeout_s : t.extra.timeout_s ≡ s.extra.timeout_s
  pub queue : t.extra.queue ≡ s.extra.queue
  pub sent : t.extra.sent ≡ s.extra.sent
  pub memory : t.extra.memory ≡ (mempool_free c s.extra.memory s.extra.mempool).1
  pub mempool : t.extra.mempool ≡ (mempool_free c s.extra.memory s.extra.mempool).2

linked-ser_seq : (o : Option MemPool) (v : ClientInfo) → (linked o v).ser_seq ≡ v.ser_seq
linked-ser_seq none v = refl
linked-ser_seq (some p) v = refl

linked_at :
    (c d : ℕ) (o : Option MemPool) (s : State)
    → (if c == d then linked o (client c s) else client d s).ser_seq ≡ (client d s).ser_seq
linked_at c d o s = elim (Bool-cases (c == d)) [
  | inl e ↦
      let same : c ≡ d = ground arith in
      rw e (linked-ser_seq o (client c s) ∙ ap (λ a. (client a s).ser_seq) same)
  | inr e ↦ rw e refl
]

pub destroy_client-Left :
    (sn c : ℕ) (s : State)
    → get_client_info sn s.extra.registry ≡ c
    → c ≢ 0
    → Left s (destroy_client sn s) sn c
unfolding destroy_client timer_del_event remove_client_info get_client_info
destroy_client-Left sn c s e nz = record {
  links = ground (arith, e, nz);
  own_event = ground (arith, e, nz);
  events = λ a h. ground (arith, e, nz, h);
  lookup = λ k. ground (arith, e, nz, lookup-erase_sn sn k s.extra.registry.client_info_map);
  clients = λ d ne. ground (arith, e, nz, ne);
  ser_seq = λ d. ground (arith, e, nz, linked_at c d s.extra.mempool s);
  max_open_fd = ground (arith, e, nz);
  timeout_s = ground (arith, e, nz);
  queue = ground (arith, e, nz);
  sent = ground (arith, e, nz);
  memory = ground (arith, e, nz);
  mempool = ground (arith, e, nz);
}

-- A client `c` that may leave: in use, and apart from `us`, the others on the timer's list.
pub record Leaving (s : State) (us : List ℕ) (fds : ℕ → List ℕ) (c : ℕ) : Type 0 where
  pub on_fds : IsFds s fds
  pub timer_side : TimerSide s.links us c
  pub in_use : InUse s fds c
  pub others : All (InUse s fds) us
  pub apart : NotIn c us
  pub on_timer : (fd : ℕ) → fd < s.extra.max_open_fd → All (λ d. (d ≡ c) ⊎ In d us) (fds fd)
  pub known :
      (sn : ℕ)
      → get_client_info sn s.extra.registry ≢ 0
      → let d = get_client_info sn s.extra.registry in
        ((d ≡ c) ⊎ In d us) × ((client d s).ser_seq ≡ sn)

stay-InUse :
    (s t : State) (fds : ℕ → List ℕ) (c d : ℕ)
    → Left s t (client c s).ser_seq c
    → InUse s fds c
    → InUse s fds d
    → c ≢ d
    → InUse t (λ fd. remove_one c (fds fd)) d
stay-InUse s t fds c d left ic id ne =
    let same : client d t ≡ client d s = left.clients d ne in
    let ev = left.events (timer_node d) (λ e. ne (omega (arith, e))) in
    let other : (client c s).ser_seq ≢ (client d s).ser_seq =
      λ e. ne (sym ic.found ∙ ap (λ k. get_client_info k s.extra.registry) e ∙ id.found) in
    record {
      ne_null = id.ne_null;
      in_bounds = ground (arith, same, left.max_open_fd, id.in_bounds);
      found = rw (same, left.lookup (client d s).ser_seq) (ground (arith, other, id.found));
      on_fd = rw (same) (In-remove_one d c (fds (client d s).cli_fd) id.on_fd (λ e. ne (sym e)));
      timed = ap (λ e. e.func) ev ∙ id.timed;
      owned = ap (λ e. e.owner) ev ∙ id.owned;
    }

others-InUse :
    (s t : State) (fds : ℕ → List ℕ) (c : ℕ) (us : List ℕ)
    → Left s t (client c s).ser_seq c
    → InUse s fds c
    → All (InUse s fds) us
    → NotIn c us
    → All (InUse t (λ fd. remove_one c (fds fd))) us
others-InUse s t fds c [] left ic h ne = tt
others-InUse s t fds c (u ∷ us) left ic h ne =
    (stay-InUse s t fds c u left ic h.0 ne.0, others-InUse s t fds c us left ic h.1 ne.1)

fd_nodes-Distinct :
    (c x : ℕ) (xs : List ℕ) → NotIn (fd_node x) (map fd_node xs) → c ≡ x → NotIn c xs
fd_nodes-Distinct c x [] h e = tt
fd_nodes-Distinct c x (y ∷ ys) h e =
    ((λ q. h.0 (omega (arith, e, q))), fd_nodes-Distinct c x ys h.1 e)

-- Without `c`, all of a descriptor's clients are among the others.
others_on_timer :
    (c : ℕ) (us xs : List ℕ)
    → Distinct (map fd_node xs)
    → All (λ d. (d ≡ c) ⊎ In d us) xs
    → All (λ d. In d us) (remove_one c xs)
unfolding remove_one
others_on_timer c us [] d h = tt
others_on_timer c us (x ∷ xs) d h = elim (Bool-cases (c == x)) [
  | inl e ↦ rw e (rest us xs (fd_nodes-Distinct c x xs d.0 (ground (arith, e))) h.1)
  | inr e ↦ rw e (pick us x h.0 e, others_on_timer c us xs d.1 h.1)
]
  where
    pick : (us : List ℕ) (x : ℕ) → (x ≡ c) ⊎ In x us → (c == x) ≡ false → In x us
    pick us x (inl q) e = absurd (ground (arith, q, e))
    pick us x (inr q) e = q

    rest : (us xs : List ℕ) → NotIn c xs → All (λ d. (d ≡ c) ⊎ In d us) xs → All (λ d. In d us) xs
    rest us [] n h = tt
    rest us (y ∷ ys) n h = (other us y h.0 n.0, rest us ys n.1 h.1)
      where
        other : (us : List ℕ) (y : ℕ) → (y ≡ c) ⊎ In y us → c ≢ y → In y us
        other us y (inl q) n = absurd (n (sym q))
        other us y (inr q) n = q

NotIn-remove_one : (c : ℕ) (xs : List ℕ) → Distinct (map fd_node xs) → NotIn c (remove_one c xs)
unfolding remove_one
NotIn-remove_one c [] h = tt
NotIn-remove_one c (x ∷ xs) h = elim (Bool-cases (c == x)) [
  | inl e ↦ rw e (fd_nodes-Distinct c x xs h.0 (ground (arith, e)))
  | inr e ↦ rw e (ground (arith, e), NotIn-remove_one c xs h.1)
]

own_same :
    (s t : State) (c fd : ℕ) (xs : List ℕ)
    → ((d : ℕ) → c ≢ d → client d t ≡ client d s)
    → NotIn c xs
    → All (λ d. (client d s).cli_fd ≡ fd) xs
    → All (λ d. (client d t).cli_fd ≡ fd) xs
own_same s t c fd [] same n h = tt
own_same s t c fd (x ∷ xs) same n h =
    (ap (λ v. v.cli_fd) (same x n.0) ∙ h.0, own_same s t c fd xs same n.1 h.1)

still_known :
    (s t : State) (us : List ℕ) (fds : ℕ → List ℕ) (c sn : ℕ)
    → Left s t (client c s).ser_seq c
    → Leaving s us fds c
    → get_client_info sn t.extra.registry ≢ 0
    → let d = get_client_info sn t.extra.registry in In d us × ((client d t).ser_seq ≡ sn)
still_known s t us fds c sn left v h =
    let sn_c = (client c s).ser_seq in
    let at : get_client_info sn t.extra.registry
        ≡ (if sn_c == sn then 0 else get_client_info sn s.extra.registry) =
      left.lookup sn in
    elim (Bool-cases (sn_c == sn)) [
      | inl e ↦ absurd (h (ground (arith, at, e)))
      | inr e ↦
          let was : get_client_info sn t.extra.registry ≡ get_client_info sn s.extra.registry =
            ground (arith, at, e) in
          let (d_in, d_sn) = v.known sn (λ z. h (was ∙ z)) in
          rw (was, left.ser_seq (get_client_info sn s.extra.registry))
            (other (get_client_info sn s.extra.registry) e d_sn d_in, d_sn)
    ]
  where
    other :
        (d : ℕ)
        → ((client c s).ser_seq == sn) ≡ false
        → (client d s).ser_seq ≡ sn
        → (d ≡ c) ⊎ In d us
        → In d us
    other d e q (inl k) = absurd (ground (arith, e, ap (λ j. (client j s).ser_seq) k, q))
    other d e q (inr k) = k

-- A client that may leave is destroyed: the others are what is left, in the same order.
pub destroy_client-IsProxy :
    (s : State) (us : List ℕ) (fds : ℕ → List ℕ) (c : ℕ)
    → Leaving s us fds c
    → IsProxy (destroy_client (client c s).ser_seq s) us (λ fd. remove_one c (fds fd))
destroy_client-IsProxy s us fds c v =
    let t = destroy_client (client c s).ser_seq s in
    let left = destroy_client-Left (client c s).ser_seq c s v.in_use.found v.in_use.ne_null in
    let fd_of = λ (d : ℕ). (client d s).cli_fd in
    let l1 = list_del_init (fd_node c) s.links in
    let rings1 =
      del_fd_rings fd_of fds s.extra.max_open_fd v.on_fds.own s.links v.on_fds.ring c
        v.in_use.in_bounds v.in_use.on_fd in
    let side1 =
      del_fd_TimerSide fd_of fds s.extra.max_open_fd v.on_fds.own s.links v.on_fds.ring c
        v.in_use.in_bounds v.in_use.on_fd us v.timer_side in
    let (timer, rings) =
      del_timer_rings s.extra.max_open_fd l1 (λ fd. remove_one c (fds fd)) us c rings1 side1 in
    record {
      timer_ring = rw (left.links) timer;
      on_fds = record {
        ring = λ fd h. rw (left.links) (rings fd (rw (← left.max_open_fd) h));
        own = λ fd h.
            let small : fd < s.extra.max_open_fd = rw (← left.max_open_fd) h in
            own_same s t c fd (remove_one c (fds fd)) left.clients
              (NotIn-remove_one c (fds fd) (v.on_fds.ring fd small).distinct.1)
              (All-remove_one (λ d. (client d s).cli_fd ≡ fd) c (fds fd) (v.on_fds.own fd small));
      };
      in_use = others-InUse s t fds c us left v.in_use v.others v.apart;
      on_timer = λ fd h.
          let small : fd < s.extra.max_open_fd = rw (← left.max_open_fd) h in
          others_on_timer c us (fds fd) (v.on_fds.ring fd small).distinct.1 (v.on_timer fd small);
      known = λ sn h. still_known s t us fds c sn left v h;
    }
