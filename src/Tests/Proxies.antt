-- ===== src/Tests/Proxies.antt =====
-- base/proxy.cpp with one client, at 1008, on the descriptor 1.
use thirft_proxy.Prelude.{
  ℕ, zero, suc, ◌≤◌, ◌<◌, ◌≡◌, ◌≢◌, refl, ◌⊎◌, inl, inr, Bool-cases, none, some, List, [], ◌∷◌,
  ◌++◌, map, arith, All, ◌==◌, if◌then◌else◌, done,
}
use thirft_proxy.ListHead.{Links, list_add_tail, list_add_between, init_list_head}
use thirft_proxy.ListHead.Ring.{IsRing}
use thirft_proxy.Timer.{success, cleared}
use thirft_proxy.Timer.Check.{due, pending}
use thirft_proxy.Timer.Membership.{event_of}
use thirft_proxy.Mempool.{
  Memory, MemPool, mempool_alloc, mempool_calloc, mempool_free, mempool_inc_refcount,
}
use thirft_proxy.ClientInfo.{ClientInfo, get_client_info, lookup_sn}
use thirft_proxy.Proxy.{
  State, timer_node, fd_head, fd_node, net_timer, client, do_server_timeout, destroy_client,
  time_event, link_down_cli, proc_pkg_cli,
}
use thirft_proxy.Proxy.Invariant.{remove_one, InUse, IsProxy}
use thirft_proxy.Proxy.Member.{destroy_client_lem}
use thirft_proxy.Proxy.Expire.{Timed, time_event_lem}
use thirft_proxy.Proxy.Accept.{Accepted}
use thirft_proxy.Proxy.Enter.{arrive, entered}
use thirft_proxy.Proxy.Arrive.{proc_pkg_cli_lem}
use thirft_proxy.Proxy.LinkDown.{Down, link_down_cli_lem}

abbrev pub no_memory : Memory
no_memory a = 0

-- The item at 1008 is live, the one at 1024 still unused.
abbrev pub pool : MemPool
pool = record {
  item_size = 16;
  alloc_size = 40;
  total_alloc_item = 2;
  reuse_ptr = 0;
  alloc_ptr = 1000;
  alloc_pool_pos = 1;
  ref_count = 1;
}

abbrev pub some_client : ClientInfo
some_client = record {
  cli_fd = 1;
  cli_seq = 0;
  cli_cmd = 0;
  userid = 0;
  ser_seq = 5;
  len = 0;
  proc_time = 7;
  buf = λ i. 0;
  call_back_func = none;
}

abbrev pub alone : Links
alone = record { next = λ a. a; prev = λ a. a }

abbrev pub one : State
one = record {
  links = entered 1 1008 alone;
  events = λ a. if 4034 == a then event_of 107 (some do_server_timeout) 1008 0 else cleared;
  extra = record {
    registry = record {
      client_info_map = (5, 1008) ∷ [];
      serialized_no = 6;
      clients = λ a. some_client;
    };
    mempool = some pool;
    memory = no_memory;
    cmd_handler = [];
    queue = 1008 ∷ [];
    sent = [];
    max_open_fd = 2;
    timeout_s = 100;
  };
}

abbrev pub on : ℕ → List ℕ
on zero = []
on (suc zero) = 1008 ∷ []
on (suc (suc k)) = []

one-IsRing : (fd : ℕ) → fd < 2 → IsRing one.links (fd_head fd) (map fd_node (on fd))
unfolding init_list_head list_add_tail list_add_between
one-IsRing zero h = record { chain = (refl, refl); distinct = (tt, tt) }
one-IsRing (suc zero) h = record { chain = (refl, refl, (refl, refl)); distinct = omega arith }
one-IsRing (suc (suc k)) h = absurd (omega arith)

one-own : (fd : ℕ) → fd < 2 → All (λ c. (client c one).cli_fd ≡ fd) (on fd)
one-own zero h = tt
one-own (suc zero) h = (refl, tt)
one-own (suc (suc k)) h = tt

one-InUse : InUse one on 1008
unfolding get_client_info lookup_sn
one-InUse = record {
  ne_null = λ e. omega (arith, e);
  in_bounds = omega arith;
  found = refl;
  on_fd = inl refl;
  timed = refl;
  owned = refl;
}

one-timer : IsRing one.links net_timer (4034 ∷ [])
unfolding init_list_head list_add_tail list_add_between
one-timer = record { chain = (refl, refl, (refl, refl)); distinct = omega arith }

one-on_timer : (fd : ℕ) → fd < 2 → All (λ d. (d ≡ 1008) ⊎ ⊥) (on fd)
one-on_timer zero h = tt
one-on_timer (suc zero) h = (inl refl, tt)
one-on_timer (suc (suc k)) h = tt

one-known :
    (sn : ℕ)
    → get_client_info sn one.extra.registry ≢ 0
    → let c = get_client_info sn one.extra.registry in
      ((c ≡ 1008) ⊎ ⊥) × ((client c one).ser_seq ≡ sn)
unfolding get_client_info lookup_sn
one-known sn h = elim (Bool-cases (5 == sn)) [
  | inl e ↦ (inl (ground (arith, e)), ground (arith, e))
  | inr e ↦ absurd (h (ground (arith, e)))
]

pub one-IsProxy : IsProxy one (1008 ∷ []) on
unfolding get_client_info lookup_sn
one-IsProxy = record {
  timer_ring = one-timer;
  on_fds = record { ring = one-IsRing; own = one-own };
  in_use = (one-InUse, tt);
  on_timer = one-on_timer;
  known = one-known;
}

destroy_client_lem_example :
    let t = destroy_client 5 one in
    let freed = mempool_free 1008 no_memory (some pool) in
    IsProxy t (remove_one 1008 (1008 ∷ [])) (λ fd. remove_one 1008 (on fd))
    × (get_client_info 5 t.extra.registry ≡ 0)
    × (t.events (timer_node 1008) ≡ cleared)
    × ((t.extra.memory ≡ freed.1) × (t.extra.mempool ≡ freed.2))
    × ((t.extra.queue ≡ 1008 ∷ []) × (t.extra.sent ≡ []))
    × (destroy_client 5 t ≡ t)
destroy_client_lem_example = destroy_client_lem one (1008 ∷ []) on 1008 one-IsProxy (inl refl)

time_event_lem_example :
    (t : State) × (time_event 2 200 one ≡ some (success, t))
    × (v : Timed one t (pending 200 one (4034 ∷ []))) × (4034 ∷ []
        ≡ due 200 one (4034 ∷ []) ++ map timer_node v.ts)
    × All (λ x. (one.events x).expire_time < 200) (due 200 one (4034 ∷ []))
    × All (λ x. 200 ≤ (one.events x).expire_time) (map timer_node v.ts)
time_event_lem_example = time_event_lem 2 200 one (1008 ∷ []) on one-IsProxy (tt, tt) (omega arith)

link_down_cli_lem_example :
    (t : State) × (link_down_cli 2 1 one ≡ some t) × Down one t (1008 ∷ []) on 1 (1008 ∷ [])
link_down_cli_lem_example =
    link_down_cli_lem 2 1 one (1008 ∷ []) on one-IsProxy (omega arith) (omega arith)

-- The pool after the item at 1024 is taken.
abbrev after : MemPool
after = record pool { alloc_pool_pos = 2; ref_count = 2 }

abbrev after_memory : Memory
after_memory a = if 1024 == a then 0 else 0

calloc_run : mempool_calloc 2000 no_memory (some pool) ≡ (1024, after_memory, some after)
unfolding mempool_calloc mempool_alloc mempool_inc_refcount
calloc_run = refl

one-fresh : get_client_info 6 one.extra.registry ≡ 0
unfolding get_client_info lookup_sn
one-fresh = refl

abbrev pub packet : ℕ → ℕ
packet i = i

-- A packet with two bytes of body, on the descriptor 0.
proc_pkg_cli_lem_example :
    (t : State) × (proc_pkg_cli 2000 50 0 packet 20 one ≡ done t)
    × Accepted one t 0 50 packet 20 1024
    × ((t.extra.memory ≡ after_memory) × (t.extra.mempool ≡ some after))
    × IsProxy t (1008 ∷ 1024 ∷ []) (arrive 0 1024 on)
proc_pkg_cli_lem_example =
    proc_pkg_cli_lem 2000 50 0 packet 20 one 1024 after_memory (some after) (1008 ∷ []) on
      one-IsProxy calloc_run (λ e. omega (arith, e)) (omega arith) one-fresh (omega arith)
      (omega arith) (omega arith) (omega arith)
