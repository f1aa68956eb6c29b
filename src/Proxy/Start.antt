-- ===== src/Proxy/Start.antt =====
-- `Proxy::InitFdList` and `Proxy::Init`: the state that the work process starts with.
use Prim.Native.String.{String}
use thirft_proxy.Prelude.{
  Outcome, done, ◌>>=◌, ℕ, zero, suc, ◌+◌, ◌*◌, ◌%◌, ◌^◌, Bool, true, false, Option, none, some,
  List, [], map, ltb, if◌then◌else◌,
}
use thirft_proxy.Text.{Bytes}
use thirft_proxy.Text.Codes.{codes}
use thirft_proxy.ListHead.{Links, init_list_head}
use thirft_proxy.Timer.{set_links, timer_init}
use thirft_proxy.Mempool.{MemPool, mempool_create}
use thirft_proxy.CmdHandler.{register_cmd, tis_proto_handler}
use thirft_proxy.Connection.{TransportApi}
use thirft_proxy.ConnectionPool.{Pool, make_pool, init}
use thirft_proxy.ConnectionPool.Registry.{Registry, add_conn_pool}
use thirft_proxy.ConfigManager.{Cm, config_get_intval, config_get_strval}
use thirft_proxy.NetUtils.{Address, string_to_ip_port_pairs}
use thirft_proxy.ThreadPool.{ThreadPool, make_thread_pool, start}
use thirft_proxy.Proxy.{State, set_data, fd_head, net_timer}

-- The loop of `InitFdList`, from descriptor `fd` on.
unfoldable pub init_fd_loop : ℕ → ℕ → Links → Links
init_fd_loop zero fd l = l
init_fd_loop (suc n) fd l = init_fd_loop n (fd + 1) (init_list_head (fd_head fd) l)

-- `g_max_open_fd`, an `int`: the system's limit, or when that is not known or infinite, the setting.
abbrev pub open_fd_limit : Option ℕ → Cm → ℕ
open_fd_limit none cm = config_get_intval (codes "max_open_fd") 100000 cm
open_fd_limit (some limit) cm = limit % 2 ^ 32

-- A negative limit asks `malloc` for more than there is.
unfoldable pub init_fd_list : Option ℕ → Bool → Cm → State → Bool × State
init_fd_list limit room cm s =
    let n = open_fd_limit limit cm in
    let s1 = set_data (record s.extra { max_open_fd = n }) s in
    if ltb n (2 ^ 31)
    then (if room then (true, set_links (init_fd_loop n 0 s1.links) s1) else (false, s1))
    else (false, s1)

-- What the system answers to `Init`: the limit on descriptors, whether there is memory for their
-- lists, the page size, the size of a `ClientInfo`, two blocks for the memory pool, and what the
-- memory of a new connection pool and a new connection holds.
pub record Resources : Type 0 where
  pub rlim_max : Option ℕ
  pub room : Bool
  pub pagesize : ℕ
  pub client_size : ℕ
  pub control_block : ℕ
  pub block : ℕ
  pub garbage : ℕ

-- A thread pool with its workers; a negative number of threads makes none.
abbrev pub start_threads : ℕ → ThreadPool × ℕ
start_threads num_threads =
    (start make_thread_pool, if ltb num_threads (2 ^ 31) then num_threads else 0)

abbrev pub has_pool : Option MemPool → Bool
has_pool none = false
has_pool (some p) = true

module _ (api : TransportApi) (text_of : Bytes → String) where
  -- A pool with the sizes of the configuration.
  unfoldable pub new_conn_pool : ℕ → String → (size least : ℕ) → Cm → List Address → Pool api
  new_conn_pool garbage name size least cm addresses =
      let pairs = map (λ (a : Address). (text_of a.0, a.1)) addresses in
      record (make_pool api name pairs garbage) {
        pool_size = config_get_intval (codes "pool_size") size cm;
        min_size = config_get_intval (codes "min_size") least cm;
        check_interval_sec = config_get_intval (codes "check_interval_sec") 1 cm;
      }

  -- The pool for a service, from the addresses in its setting.
  unfoldable pub init_conn_pool :
      ℕ → String → (size least : ℕ) → Cm → Bytes → Registry api → Outcome (Registry api)
  init_conn_pool garbage name size least cm addrs pools =
      init api garbage (new_conn_pool garbage name size least cm (string_to_ip_port_pairs addrs))
      >>= λ p. done (add_conn_pool api p pools)

  -- The answer, the state, the connection pools, and the thread pool with its number of workers, null
  -- when `Init` failed before it was made.
  abbrev pub Started : Type 0
  Started = Bool × ((State × Registry api) × Option (ThreadPool × ℕ))

  -- Where a setting is null, `Init` fails.
  abbrev with_addrs :
      Option Bytes → State → Registry api → (Bytes → Outcome Started) → Outcome Started
  with_addrs none s pools next = done (false, ((s, pools), none))
  with_addrs (some addrs) s pools next = next addrs

  unfoldable pub init_services : ℕ → Cm → State → Registry api → Outcome Started
  init_services garbage cm s pools =
      with_addrs (config_get_strval (codes "tis_server_addr") none cm) s pools λ tis.
        init_conn_pool garbage "tis" 20 18 cm tis pools >>= λ pools1.
        with_addrs (config_get_strval (codes "dbser_server_addr") none cm) s pools1 λ dbser.
          init_conn_pool garbage "dbser" 10 8 cm dbser pools1 >>= λ pools2. done (
            true,
            (
              (
                set_data
                    (record s.extra {
                      cmd_handler = register_cmd 18178 (some tis_proto_handler) [];
                      queue = make_thread_pool.queue;
                    })
                    s,
                pools2,
              ),
              some (start_threads (config_get_intval (codes "thread_num") 5 cm)),
            ),
          )

  unfoldable pub init_proxy : Resources → Cm → State → Registry api → Outcome Started
  init_proxy r cm s pools =
      let (ok, s1) = init_fd_list r.rlim_max r.room cm s in
      let (mem, pool) =
        mempool_create r.pagesize r.client_size (r.pagesize * 4096) r.control_block r.block
          s1.extra.memory in
      let s2 = set_data (record s1.extra { memory = mem; mempool = pool }) s1 in
      let s3 =
        set_data (record s2.extra { timeout_s = config_get_intval (codes "timeout_s") 2 cm }) s2 in
      let s4 = (timer_init net_timer s3).1 in
      if ok
      then (if has_pool pool
          then init_services r.garbage cm s4 pools
          else done (false, ((s2, pools), none)))
      else done (false, ((s1, pools), none))
