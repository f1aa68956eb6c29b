-- ===== src/Proxy/Begin.antt =====
-- A work process begins with no requests and well-formed lists.
use Prim.Native.String.{String}
use thirft_proxy.Prelude.{
  leb, done, fault, ℕ, ◌*◌, ◌/◌, ◌^◌, ◌<◌, ◌≡◌, ◌≢◌, refl, true, false, Option, none, some, List,
  [], ◌∷◌, ◌++◌, map, arith, length, ◌==◌, lt→ltb,
}
use thirft_proxy.Text.{Bytes}
use thirft_proxy.Text.Codes.{codes}
use thirft_proxy.ListHead.{init_list_head}
use thirft_proxy.Timer.{set_links, timer_init}
use thirft_proxy.Mempool.{Memory, MemPool, mempool_create}
use thirft_proxy.ClientInfo.{get_client_info, lookup_sn}
use thirft_proxy.CmdHandler.{tis_proto_handler, get_handler, register_cmd}
use thirft_proxy.Connection.{TransportApi}
use thirft_proxy.ConnectionPool.{Pool, make_pool, init, connect_rounds}
use thirft_proxy.ConnectionPool.Registry.{Registry, add_conn_pool}
use thirft_proxy.ConfigManager.{Cm, config_get_intval, config_get_strval}
use thirft_proxy.NetUtils.{Address, string_to_ip_port_pairs}
use thirft_proxy.ThreadPool.{ThreadPool}
use thirft_proxy.Proxy.{State, set_data, fd_head, net_timer}
use thirft_proxy.Proxy.Invariant.{IsProxy}
use thirft_proxy.Proxy.Heads.{
  init_list_head-IsAlone, init_list_head_self, init_fd_loop_lem, IsAlone-IsRing,
}
use thirft_proxy.Proxy.Start.{
  init_fd_loop, has_pool, open_fd_limit, init_fd_list, Resources, new_conn_pool, init_conn_pool,
  init_services, init_proxy,
}

none_found :
    (sn : ℕ) (s : State)
    → s.extra.registry.client_info_map ≡ []
    → get_client_info sn s.extra.registry ≡ 0
unfolding get_client_info lookup_sn
none_found sn s fresh = rw fresh refl

not_null : (n : ℕ) → n ≢ 0 → (n == 0) ≡ false
not_null n ne = ground arith

-- What `Init` needs from the system.
pub record IsGranted (r : Resources) (cm : Cm) : Type 0 where
  pub limit : open_fd_limit r.rlim_max cm < 2 ^ 31
  pub room : r.room ≡ true
  pub control : r.control_block ≢ 0
  pub block : r.block ≢ 0

not_empty : {A : Type 0} (l : List A) (x : A) (xs : List A) → l ≡ x ∷ xs → (length l == 0) ≡ false
not_empty l x xs e = rw e (ground arith)

some_pool : (o : Option MemPool) → has_pool o ≡ true → (p : MemPool) × (o ≡ some p)
some_pool none h = absurd cc
some_pool (some p) h = (p, refl)

-- The thread pool that `Init` starts.
abbrev pub waiting : ThreadPool
waiting = record { is_running = true; queue = []; max_queue_size = 20 }

module _ (api : TransportApi) (text_of : Bytes → String) where
  init-done :
      (garbage : ℕ) (p : Pool api) (x : String × ℕ) (xs : List (String × ℕ))
      → p.ip_port_pair ≡ x ∷ xs
      → p.pool_size < 2 ^ 31
      → (q : Pool api) × (init api garbage p ≡ done q)
  unfolding init
  init-done garbage p x xs e small =
      let sized : leb (2 ^ 31) p.pool_size ≡ false = ground arith in
      let made = connect_rounds api garbage (p.pool_size / length p.ip_port_pair) p.ip_port_pair in
      (
        record p { connections = p.connections ++ made },
        rw (not_empty p.ip_port_pair x xs e, sized) refl,
      )

  new_conn_pool-pairs :
      (garbage : ℕ) (name : String) (size least : ℕ) (cm : Cm) (a : Address) (l rest : List Address)
      → l ≡ a ∷ rest
      → (new_conn_pool api text_of garbage name size least cm l).ip_port_pair
        ≡ (text_of a.0, a.1) ∷ map (λ (b : Address). (text_of b.0, b.1)) rest
  unfolding new_conn_pool make_pool
  new_conn_pool-pairs garbage name size least cm a l rest e = rw e refl

  -- A pool whose setting has an address can be made.
  init_conn_pool-done :
      (garbage : ℕ) (name : String) (size least : ℕ) (cm : Cm) (addrs : Bytes)
      (pools : Registry api) (a : Address) (rest : List Address)
      → string_to_ip_port_pairs addrs ≡ a ∷ rest
      → config_get_intval (codes "pool_size") size cm < 2 ^ 31
      → (m : Registry api) × (init_conn_pool api text_of garbage name size least cm addrs pools
          ≡ done m)
  unfolding init_conn_pool new_conn_pool make_pool
  init_conn_pool-done garbage name size least cm addrs pools a rest e small =
      let (q, made) =
        init-done garbage
          (new_conn_pool api text_of garbage name size least cm (string_to_ip_port_pairs addrs))
          (text_of a.0, a.1) (map (λ (b : Address). (text_of b.0, b.1)) rest)
          (new_conn_pool-pairs garbage name size least cm a (string_to_ip_port_pairs addrs) rest e)
          small in
      (add_conn_pool api q pools, rw made refl)

  -- A setting without an address makes `init` divide by zero.
  init_conn_pool_fault :
      (garbage : ℕ) (name : String) (size least : ℕ) (cm : Cm) (addrs : Bytes)
      (pools : Registry api)
      → string_to_ip_port_pairs addrs ≡ []
      → init_conn_pool api text_of garbage name size least cm addrs pools ≡ fault
  unfolding init_conn_pool init new_conn_pool make_pool
  init_conn_pool_fault garbage name size least cm addrs pools e = rw e refl

  -- The two settings have an address each, and neither the size of the pools nor the number of threads
  -- is negative.
  pub record IsConfigured (cm : Cm) : Type 0 where
    pub tis : Bytes
    pub dbser : Bytes
    pub tis_address : Address
    pub dbser_address : Address
    pub tis_rest : List Address
    pub dbser_rest : List Address
    pub tis_set : config_get_strval (codes "tis_server_addr") none cm ≡ some tis
    pub dbser_set : config_get_strval (codes "dbser_server_addr") none cm ≡ some dbser
    pub tis_parsed : string_to_ip_port_pairs tis ≡ tis_address ∷ tis_rest
    pub dbser_parsed : string_to_ip_port_pairs dbser ≡ dbser_address ∷ dbser_rest
    pub tis_size : config_get_intval (codes "pool_size") 20 cm < 2 ^ 31
    pub dbser_size : config_get_intval (codes "pool_size") 10 cm < 2 ^ 31
    pub threads : config_get_intval (codes "thread_num") 5 cm < 2 ^ 31

  init_services-done :
      (garbage : ℕ) (cm : Cm) (s : State) (pools : Registry api)
      → IsConfigured cm
      → (m : Registry api) × (init_services api text_of garbage cm s pools
          ≡ done (
            true,
            (
              (
                set_data
                    (record s.extra {
                      cmd_handler = register_cmd 18178 (some tis_proto_handler) [];
                      queue = [];
                    })
                    s,
                m,
              ),
              some (waiting, config_get_intval (codes "thread_num") 5 cm),
            ),
          ))
  unfolding init_services
  init_services-done garbage cm s pools c =
      let (m1, e1) =
        init_conn_pool-done garbage "tis" 20 18 cm c.tis pools c.tis_address c.tis_rest c.tis_parsed
          c.tis_size in
      let (m2, e2) =
        init_conn_pool-done garbage "dbser" 10 8 cm c.dbser m1 c.dbser_address c.dbser_rest
          c.dbser_parsed c.dbser_size in
      (m2, rw (c.tis_set, e1, c.dbser_set, e2, lt→ltb _ _ c.threads) refl)

  fd_list_granted :
      (r : Resources) (cm : Cm) (s : State)
      → IsGranted r cm
      → init_fd_list r.rlim_max r.room cm s ≡ (
        true,
        set_links
            (init_fd_loop (open_fd_limit r.rlim_max cm) 0 s.links)
            (set_data (record s.extra { max_open_fd = open_fd_limit r.rlim_max cm }) s),
      )
  unfolding init_fd_list
  fd_list_granted r cm s g = rw (lt→ltb (open_fd_limit r.rlim_max cm) (2 ^ 31) g.limit, g.room) refl

  -- What the memory pool is made of.
  abbrev created : Resources → Memory → Memory × Option MemPool
  created r mem =
      mempool_create r.pagesize r.client_size (r.pagesize * 4096) r.control_block r.block mem

  is_created :
      (r : Resources) (cm : Cm) (mem : Memory) → IsGranted r cm → has_pool (created r mem).1 ≡ true
  unfolding mempool_create
  is_created r cm mem g = rw (not_null r.control_block g.control, not_null r.block g.block) refl

  pool_granted :
      (r : Resources) (cm : Cm) (mem : Memory)
      → IsGranted r cm
      → (n : Memory) × ((p : MemPool) × (mempool_create r.pagesize r.client_size
              (r.pagesize * 4096)
              r.control_block
              r.block
              mem
            ≡ (n, some p)))
  pool_granted r cm mem g =
      let (p, e) = some_pool (created r mem).1 (is_created r cm mem g) in
      ((created r mem).0, (p, λ i. ((created r mem).0, e i)))

  -- The state that `Init` leaves.
  abbrev begun : Resources → Cm → Memory → MemPool → State → State
  begun r cm mem pool s = record {
    links = init_list_head net_timer (init_fd_loop (open_fd_limit r.rlim_max cm) 0 s.links);
    events = s.events;
    extra = record s.extra {
      max_open_fd = open_fd_limit r.rlim_max cm;
      memory = mem;
      mempool = some pool;
      timeout_s = config_get_intval (codes "timeout_s") 2 cm;
      cmd_handler = register_cmd 18178 (some tis_proto_handler) [];
      queue = [];
    };
  }

  begun-IsProxy :
      (r : Resources) (cm : Cm) (mem : Memory) (pool : MemPool) (s : State)
      → s.extra.registry.client_info_map ≡ []
      → IsProxy (begun r cm mem pool s) [] (λ fd. [])
  begun-IsProxy r cm mem pool s fresh = record {
    timer_ring = IsAlone-IsRing _ net_timer (init_list_head_self net_timer _);
    on_fds = record {
      ring = λ fd lt. IsAlone-IsRing _ (fd_head fd) (
          init_list_head-IsAlone net_timer (fd_head fd) _ (
            init_fd_loop_lem (open_fd_limit r.rlim_max cm) 0 fd s.links (omega arith)
              (omega (arith, lt))));
      own = λ fd lt. tt;
    };
    in_use = tt;
    on_timer = λ fd lt. tt;
    known = λ sn ne. absurd (ne (none_found sn s fresh));
  }

  -- A work process whose system grants what `Init` asks for, and whose configuration has an address
  -- for both services, a size of the pools and a number of threads that are not negative, comes up: it
  -- has no request, all its lists are well formed and empty, packets with command 0x4702 get the
  -- handler of messages, and the thread pool runs with an empty queue of 20 places and as many workers
  -- as the configuration says, 5 if it says nothing.
  pub init_proxy-IsProxy :
      (r : Resources) (cm : Cm) (s : State) (pools : Registry api)
      → IsGranted r cm
      → IsConfigured cm
      → s.extra.registry.client_info_map ≡ []
      → (t : State × Registry api) × ((init_proxy api text_of r cm s pools
            ≡ done (true, (t, some (waiting, config_get_intval (codes "thread_num") 5 cm))))
          × (IsProxy t.0 [] (λ fd. [])
              × (get_handler 18178 t.0.extra.cmd_handler ≡ tis_proto_handler)))
  unfolding init_proxy timer_init get_handler register_cmd
  init_proxy-IsProxy r cm s pools g c fresh =
      let (mem, (pool, made)) = pool_granted r cm s.extra.memory g in
      let (m, ended) =
        init_services-done r.garbage cm
          (record (begun r cm mem pool s) {
            extra = record (begun r cm mem pool s).extra {
              cmd_handler = s.extra.cmd_handler;
              queue = s.extra.queue;
            };
          })
          pools c in
      (
        (begun r cm mem pool s, m),
        (
          rw (fd_list_granted r cm s g, made, ended) refl,
          (begun-IsProxy r cm mem pool s fresh, refl),
        ),
      )
