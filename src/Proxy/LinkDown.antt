-- ===== src/Proxy/LinkDown.antt =====
-- `LinkDownCli`: a descriptor goes down, and its clients with it.
use thirft_proxy.Prelude.{
  ℕ, zero, suc, ◌<◌, ◌≡◌, ◌≢◌, refl, sym, subst, ◌∙◌, ap, some, List, [], ◌∷◌, map, arith, NotIn,
  All, ◌==◌, leb, length, false,
}
use thirft_proxy.ListHead.Ring.{IsRing}
use thirft_proxy.Proxy.{
  State, fd_node, fd_head, client, entry, destroy_client, link_down_loop, link_down_cli,
}
use thirft_proxy.Proxy.Invariant.{In, remove_one, IsProxy}
use thirft_proxy.Proxy.Cells.{remove_one-NotIn}
use thirft_proxy.Proxy.Leave.{Left, destroy_client-Left}
use thirft_proxy.Proxy.Member.{In-Leaving, destroy_client_lem}

-- The list without the first of each of `cs`.
unfoldable pub remove_each : List ℕ → List ℕ → List ℕ
unfolding remove_one
remove_each [] ts = ts
remove_each (c ∷ cs) ts = remove_each cs (remove_one c ts)

-- The state after the clients `cs` of the descriptor `fd` are gone.
pub record Down (s t : State) (ts : List ℕ) (fds : ℕ → List ℕ) (fd : ℕ) (cs : List ℕ) : Type 0 where
  pub fds' : ℕ → List ℕ
  pub is_proxy : IsProxy t (remove_each cs ts) fds'
  pub empty : fds' fd ≡ []
  pub others : (k : ℕ) → k < s.extra.max_open_fd → k ≢ fd → fds' k ≡ fds k
  pub clients : (d : ℕ) → NotIn d cs → client d t ≡ client d s
  pub queue : t.extra.queue ≡ s.extra.queue
  pub sent : t.extra.sent ≡ s.extra.sent

entry-fd_node : (c : ℕ) → entry (fd_node c) ≡ c
entry-fd_node c = omega arith

not_owned :
    (s : State) (c fd : ℕ) (xs : List ℕ)
    → All (λ d. (client d s).cli_fd ≡ fd) xs
    → (client c s).cli_fd ≢ fd
    → NotIn c xs
not_owned s c fd [] h n = tt
not_owned s c fd (x ∷ xs) h n =
    ((λ e. n (ap (λ d. (client d s).cli_fd) e ∙ h.0)), not_owned s c fd xs h.1 n)

next_node :
    (s t : State) (fd c : ℕ) (cs : List ℕ)
    → IsRing s.links (fd_head fd) (map fd_node (c ∷ cs))
    → IsRing t.links (fd_head fd) (map fd_node cs)
    → s.links.next (fd_node c) ≡ t.links.next (fd_head fd)
next_node s t fd c [] r q = r.chain.2.0 ∙ sym q.chain.0
next_node s t fd c (y ∷ ys) r q = r.chain.2.0 ∙ sym q.chain.0

-- One round: the first client of the descriptor goes.
module _ (s : State) (ts : List ℕ) (fds : ℕ → List ℕ) (fd c : ℕ) (cs : List ℕ)
    (v : IsProxy s ts fds) (small : fd < s.extra.max_open_fd) (at : fds fd ≡ c ∷ cs) where
  abbrev next_state : State
  next_state = destroy_client (client c s).ser_seq s

  abbrev next_fds : ℕ → List ℕ
  next_fds k = remove_one c (fds k)

  first-In : In c ts
  first-In = (subst (All (λ d. In d ts)) at (v.on_timer fd small)).0

  first-own : (client c s).cli_fd ≡ fd
  first-own = (subst (All (λ d. (client d s).cli_fd ≡ fd)) at (v.on_fds.own fd small)).0

  first-Left : Left s next_state (client c s).ser_seq c
  first-Left =
      let p = In-Leaving s ts fds c v first-In in
      destroy_client-Left (client c s).ser_seq c s p.in_use.found p.in_use.ne_null

  next-IsProxy : IsProxy next_state (remove_one c ts) next_fds
  next-IsProxy = (destroy_client_lem s ts fds c v first-In).0

  next_fds-own : next_fds fd ≡ cs
  unfolding remove_one
  next_fds-own = rw (at) (ground arith)

  next_fds-other : (k : ℕ) → k < s.extra.max_open_fd → k ≢ fd → next_fds k ≡ fds k
  next_fds-other k h ne =
      remove_one-NotIn c (fds k)
        (not_owned s c k (fds k) (v.on_fds.own k h) (λ e. ne (sym e ∙ first-own)))

  next-Down :
      (t : State) → Down next_state t (remove_one c ts) next_fds fd cs → Down s t ts fds fd (c ∷ cs)
  unfolding remove_each
  next-Down t d = record {
    fds' = d.fds';
    is_proxy = d.is_proxy;
    empty = d.empty;
    others = λ k h ne. d.others k (rw (first-Left.max_open_fd) h) ne ∙ next_fds-other k h ne;
    clients = λ j n. d.clients j n.1 ∙ first-Left.clients j (λ e. n.0 (sym e));
    queue = d.queue ∙ first-Left.queue;
    sent = d.sent ∙ first-Left.sent;
  }

link_down_loop-Down :
    (fuel : ℕ) (s : State) (ts : List ℕ) (fds : ℕ → List ℕ) (fd : ℕ) (cs : List ℕ)
    → IsProxy s ts fds
    → fd < s.extra.max_open_fd
    → fds fd ≡ cs
    → length cs < fuel
    → (t : State) × (link_down_loop fuel
          (fd_head fd)
          (s.links.next (fd_head fd))
          (s.links.next (s.links.next (fd_head fd)))
          s
        ≡ some t)
      × Down s t ts fds fd cs
unfolding link_down_loop remove_each
link_down_loop-Down zero s ts fds fd cs v small at h = absurd (omega arith)
link_down_loop-Down (suc fuel) s ts fds fd [] v small at h =
    let r =
      subst (λ xs. IsRing s.links (fd_head fd) (map fd_node xs)) at (v.on_fds.ring fd small) in
    let e : s.links.next (fd_head fd) ≡ fd_head fd = r.chain.0 in
    (
      s,
      ground (arith, e),
      record {
        fds' = fds;
        is_proxy = v;
        empty = at;
        others = λ k small ne. refl;
        clients = λ d n. refl;
        queue = refl;
        sent = refl;
      },
    )
link_down_loop-Down (suc fuel) s ts fds fd (c ∷ cs) v small at h =
    let s' = next_state s ts fds fd c cs v small at in
    let v' = next-IsProxy s ts fds fd c cs v small at in
    let left = first-Left s ts fds fd c cs v small at in
    let small' : fd < s'.extra.max_open_fd = rw (left.max_open_fd) small in
    let at' = next_fds-own s ts fds fd c cs v small at in
    let r =
      subst (λ xs. IsRing s.links (fd_head fd) (map fd_node xs)) at (v.on_fds.ring fd small) in
    let r' =
      subst (λ xs. IsRing s'.links (fd_head fd) (map fd_node xs)) at' (v'.on_fds.ring fd small') in
    let step = next_node s s' fd c cs r r' in
    let (t, run, d) =
      link_down_loop-Down fuel s' (remove_one c ts) _ fd cs v' small' at' (omega arith) in
    let ne : (fd_node c == fd_head fd) ≡ false = ground arith in
    (t, rw (r.chain.0, entry-fd_node c, ne, step) run, next-Down s ts fds fd c cs v small at t d)

-- Where the invariant holds, `LinkDownCli` on a descriptor of the array, with fuel for each of its
-- clients, ends: exactly those clients leave, the other descriptors' lists stay as they are, the
-- invariant holds of the clients that are left, and neither the fields of any other client, nor the
-- queue, nor what was sent changes.
pub link_down_cli_lem :
    (fuel fd : ℕ) (s : State) (ts : List ℕ) (fds : ℕ → List ℕ)
    → IsProxy s ts fds
    → fd < s.extra.max_open_fd
    → length (fds fd) < fuel
    → (t : State) × (link_down_cli fuel fd s ≡ some t) × Down s t ts fds fd (fds fd)
unfolding link_down_cli
link_down_cli_lem fuel fd s ts fds v small h =
    let (t, run, d) = link_down_loop-Down fuel s ts fds fd (fds fd) v small refl h in
    let e : leb s.extra.max_open_fd fd ≡ false = ground arith in (t, rw e run, d)
