-- ===== src/Proxy/Arrive.antt =====
-- `ProcPkgCli` on a packet that a client is made for: the invariant with one client more.
use thirft_proxy.Prelude.{
  ℕ, ◌+◌, ◌<◌, ◌≤◌, ◌≡◌, ◌≢◌, refl, sym, subst, ◌∙◌, ap, inl, inr, Option, List, [], ◌∷◌, ◌++◌,
  length, arith, NotIn, All, All-append, Bool-cases, ◌==◌, false, done, map,
}
use thirft_proxy.ListHead.Ring.{IsRing}
use thirft_proxy.Mempool.{MemPool, Memory, mempool_calloc}
use thirft_proxy.ClientInfo.{get_client_info}
use thirft_proxy.Proto.{header_size}
use thirft_proxy.Proxy.{
  State, fd_node, timer_node, fd_head, client, proc_pkg_cli, buf_size, queue_size,
}
use thirft_proxy.Proxy.Invariant.{In, InUse, IsProxy}
use thirft_proxy.Proxy.Cells.{In-ne}
use thirft_proxy.Proxy.Accept.{Accepted, proc_pkg_cli-Accepted}
use thirft_proxy.Proxy.Enter.{arrive, entered, entered-timer, entered-fd, entered-others}

In-left : (d : ℕ) (xs ys : List ℕ) → In d xs → In d (xs ++ ys)
In-left d [] ys h = absurd h
In-left d (x ∷ xs) ys (inl e) = inl e
In-left d (x ∷ xs) ys (inr h) = inr (In-left d xs ys h)

In-last : (d : ℕ) (xs : List ℕ) → In d (xs ++ d ∷ [])
In-last d [] = inl refl
In-last d (x ∷ xs) = inr (In-last d xs)

NotIn-fd : (ci : ℕ) (ts xs : List ℕ) → NotIn ci ts → All (λ d. In d ts) xs → NotIn ci xs
NotIn-fd ci ts [] n h = tt
NotIn-fd ci ts (x ∷ xs) n h = (In-ne x ci ts h.0 n, NotIn-fd ci ts xs n h.1)

All-In-left : (ts ys xs : List ℕ) → All (λ d. In d ts) xs → All (λ d. In d (ts ++ ys)) xs
All-In-left ts ys [] h = tt
All-In-left ts ys (x ∷ xs) h = (In-left x ts ys h.0, All-In-left ts ys xs h.1)

In-arrive : (d fd ci : ℕ) (fds : ℕ → List ℕ) (k : ℕ) → In d (fds k) → In d (arrive fd ci fds k)
In-arrive d fd ci fds k h = elim (Bool-cases (fd == k)) [
  | inl e ↦ rw e (In-left d (fds k) (ci ∷ []) h)
  | inr e ↦ rw e h
]

module _ (s t : State) (fd now : ℕ) (buf : ℕ → ℕ) (len ci : ℕ) (a : Accepted s t fd now buf len ci)
    (ts : List ℕ) (fds : ℕ → List ℕ) (new : NotIn ci ts) where
  old-InUse :
      (d : ℕ)
      → get_client_info s.extra.registry.serialized_no s.extra.registry ≡ 0
      → InUse s fds d
      → ci ≢ d
      → InUse t (arrive fd ci fds) d
  old-InUse d fresh u ne =
      let same = a.clients d ne in
      let ev = a.events (timer_node d) (λ e. ne (omega (arith, e))) in
      let apart : s.extra.registry.serialized_no ≢ (client d s).ser_seq = λ e.
        u.ne_null (sym u.found ∙ ap (λ n. get_client_info n s.extra.registry) (sym e) ∙ fresh) in
      let other : (s.extra.registry.serialized_no == (client d s).ser_seq) ≡ false =
        ground (arith, apart) in
      record {
        ne_null = u.ne_null;
        in_bounds = rw (same, a.max_open_fd) u.in_bounds;
        found = rw (same) (a.lookup (client d s).ser_seq ∙ rw (other) u.found);
        on_fd = rw (same) (In-arrive d fd ci fds (client d s).cli_fd u.on_fd);
        timed = ap (λ e. e.func) ev ∙ u.timed;
        owned = ap (λ e. e.owner) ev ∙ u.owned;
      }

  new-InUse : ci ≢ 0 → fd < s.extra.max_open_fd → InUse t (arrive fd ci fds) ci
  new-InUse nz small = record {
    ne_null = nz;
    in_bounds = rw (a.own.cli_fd, a.max_open_fd) small;
    found = rw (a.own.ser_seq) (ground (arith, a.lookup s.extra.registry.serialized_no));
    on_fd = rw (a.own.cli_fd) (ground (arith, In-last ci (fds fd)));
    timed = ap (λ e. e.func) a.own_event;
    owned = ap (λ e. e.owner) a.own_event;
  }

  old_own :
      (k : ℕ) (xs : List ℕ)
      → NotIn ci xs
      → All (λ c. (client c s).cli_fd ≡ k) xs
      → All (λ c. (client c t).cli_fd ≡ k) xs
  old_own k [] n h = tt
  old_own k (x ∷ xs) n h = (rw (a.clients x n.0) h.0, old_own k xs n.1 h.1)

  new_own : (client ci t).cli_fd ≡ fd
  new_own = a.own.cli_fd

  All-InUse :
      (xs : List ℕ)
      → get_client_info s.extra.registry.serialized_no s.extra.registry ≡ 0
      → NotIn ci xs
      → All (InUse s fds) xs
      → All (InUse t (arrive fd ci fds)) xs
  All-InUse [] fresh n h = tt
  All-InUse (x ∷ xs) fresh n h = (old-InUse x fresh h.0 n.0, All-InUse xs fresh n.1 h.1)

  module _ (v : IsProxy s ts fds) (small : fd < s.extra.max_open_fd) where
    not_on : (k : ℕ) → k < s.extra.max_open_fd → NotIn ci (fds k)
    not_on k h = NotIn-fd ci ts (fds k) new (v.on_timer k h)

    arrive-own :
        (k : ℕ) → k < s.extra.max_open_fd → All (λ c. (client c t).cli_fd ≡ k) (arrive fd ci fds k)
    arrive-own k h = elim (Bool-cases (fd == k)) [
      | inl e ↦
          let at : fd ≡ k = ground (arith, e) in
          rw e (
            All-append (λ c. (client c t).cli_fd ≡ k) (fds k) (ci ∷ [])
              (old_own k (fds k) (not_on k h) (v.on_fds.own k h)) (new_own ∙ at, tt))
      | inr e ↦ rw e (old_own k (fds k) (not_on k h) (v.on_fds.own k h))
    ]

    arrive-IsRing :
        (k : ℕ)
        → k < s.extra.max_open_fd
        → IsRing t.links (fd_head k) (map fd_node (arrive fd ci fds k))
    arrive-IsRing k h = rw (a.links) (elim (Bool-cases (fd == k)) [
      | inl e ↦
          let at : fd ≡ k = ground (arith, e) in
          rw e (
            subst (λ j. IsRing (entered fd ci s.links) (fd_head j) (map fd_node (fds j ++ ci ∷ [])))
              at
              (entered-fd s.links fds ts fd ci new v.timer_ring (v.on_fds.ring fd small)
                (not_on fd small)))
      | inr e ↦
          let ne : k ≢ fd = ground (arith, e) in
          rw e (
            entered-others s.links fds ts fd ci new v.timer_ring (v.on_fds.ring fd small)
              (λ c. (client c t).cli_fd) k (old_own k (fds k) (not_on k h) (v.on_fds.own k h))
              (new_own, old_own fd (fds fd) (not_on fd small) (v.on_fds.own fd small)) ne
              (v.on_fds.ring k h))
    ])

    arrive-on_timer :
        (k : ℕ) → k < s.extra.max_open_fd → All (λ d. In d (ts ++ ci ∷ [])) (arrive fd ci fds k)
    arrive-on_timer k h =
        let old = All-In-left ts (ci ∷ []) (fds k) (v.on_timer k h) in
        elim (Bool-cases (fd == k)) [
          | inl e ↦
              rw e
                (All-append (λ d. In d (ts ++ ci ∷ [])) (fds k) (ci ∷ []) old (In-last ci ts, tt))
          | inr e ↦ rw e old
        ]

    arrive-known :
        (sn : ℕ)
        → get_client_info sn t.extra.registry ≢ 0
        → let c = get_client_info sn t.extra.registry in
          In c (ts ++ ci ∷ []) × ((client c t).ser_seq ≡ sn)
    arrive-known sn h = elim (Bool-cases (s.extra.registry.serialized_no == sn)) [
      | inl e ↦
          let at : get_client_info sn t.extra.registry ≡ ci = ground (arith, a.lookup sn, e) in
          rw (at, a.own.ser_seq) (In-last ci ts, ground (arith, e))
      | inr e ↦
          let at : get_client_info sn t.extra.registry ≡ get_client_info sn s.extra.registry =
            ground (arith, a.lookup sn, e) in
          let (d_in, d_sn) = v.known sn (λ z. h (at ∙ z)) in
          let same =
            a.clients (get_client_info sn s.extra.registry)
              (In-ne (get_client_info sn s.extra.registry) ci ts d_in new) in
          rw (at, same) (In-left (get_client_info sn s.extra.registry) ts (ci ∷ []) d_in, d_sn)
    ]

    arrive-IsProxy :
        get_client_info s.extra.registry.serialized_no s.extra.registry ≡ 0
        → ci ≢ 0
        → IsProxy t (ts ++ ci ∷ []) (arrive fd ci fds)
    arrive-IsProxy fresh nz = record {
      timer_ring =
          rw (a.links)
            (entered-timer s.links fds ts fd ci new v.timer_ring (v.on_fds.ring fd small));
      on_fds = record {
        ring = λ k h. arrive-IsRing k (rw (← a.max_open_fd) h);
        own = λ k h. arrive-own k (rw (← a.max_open_fd) h);
      };
      in_use =
          All-append (InUse t (arrive fd ci fds)) ts (ci ∷ []) (All-InUse ts fresh new v.in_use)
            (new-InUse nz small, tt);
      on_timer = λ k h. arrive-on_timer k (rw (← a.max_open_fd) h);
      known = arrive-known;
    }

-- Where the invariant holds and fewer than 20 clients wait in the queue: a packet with a whole header
-- and at most `buf_size` bytes behind it, on a descriptor of the array, with a client from the pool
-- that is not in use and a serial number that no client has, is accepted. The client becomes the last
-- of the timer's list and of its descriptor's list. It has the descriptor, the sequence number, the
-- command and the user of the packet, the time, the length without the header, and the bytes behind
-- the header followed by zeros; it has the counter's number and is found under it, and has the
-- handler of its command. Its timeout is armed, it is the newest of the queue, the counter goes on,
-- the pool is what `mempool_calloc` left, no other client or event changes, and the invariant holds of
-- all clients.
pub proc_pkg_cli_lem :
    (block now fd : ℕ) (buf : ℕ → ℕ) (len : ℕ) (s : State) (ci : ℕ) (mem : Memory)
    (pool : Option MemPool) (ts : List ℕ) (fds : ℕ → List ℕ)
    → IsProxy s ts fds
    → mempool_calloc block s.extra.memory s.extra.mempool ≡ (ci, mem, pool)
    → ci ≢ 0
    → NotIn ci ts
    → get_client_info s.extra.registry.serialized_no s.extra.registry ≡ 0
    → header_size ≤ len
    → len ≤ header_size + buf_size
    → fd < s.extra.max_open_fd
    → length s.extra.queue < queue_size
    → (t : State) × (proc_pkg_cli block now fd buf len s ≡ done t)
      × Accepted s t fd now buf len ci
      × ((t.extra.memory ≡ mem) × (t.extra.mempool ≡ pool))
      × IsProxy t (ts ++ ci ∷ []) (arrive fd ci fds)
proc_pkg_cli_lem block now fd buf len s ci mem pool ts fds v e nz new fresh lo hi small room =
    let (t, run, a, m) =
      proc_pkg_cli-Accepted block now fd buf len s ci mem pool e nz lo hi small room in
    (t, run, a, m, arrive-IsProxy s t fd now buf len ci a ts fds new v small fresh nz)
