-- ===== src/Proxy/Accept.antt =====
-- What `ProcPkgCli` leaves of the state when the pool has a client for the packet.
use thirft_proxy.Prelude.{
  ℕ, ◌+◌, ◌-◌, ◌%◌, length, ◌^◌, ◌<◌, ◌≤◌, ◌≡◌, ◌≢◌, refl, some, ◌∷◌, arith, ◌==◌, if◌then◌else◌,
  done, leb, ltb, false, Option,
}
use thirft_proxy.ListHead.{list_add_tail, init_list_head}
use thirft_proxy.Timer.{event_init, timer_add_event}
use thirft_proxy.Timer.Membership.{event_of}
use thirft_proxy.Mempool.{MemPool, Memory, mempool_calloc}
use thirft_proxy.ClientInfo.{ClientInfo, get_client_info, set_client_info, get-set_client_info}
use thirft_proxy.CmdHandler.{get_handler}
use thirft_proxy.Proto.{header_size, read_header, read_le}
use thirft_proxy.Proxy.{
  State, fd_node, timer_node, fd_head, net_timer, client, do_server_timeout, proc_pkg_cli,
  enter_client, filled, buf_size, max_pkg_len, queue_size, set_data, set_registry,
}

-- The client that a packet becomes.
abbrev pub accepted : ℕ → ℕ → (ℕ → ℕ) → ℕ → ℕ → State → ClientInfo
accepted fd now buf len ci s = record (filled fd now buf len (client ci s)) {
  ser_seq = s.extra.registry.serialized_no;
  call_back_func = some (get_handler (read_header buf).cmd_id s.extra.cmd_handler);
}

-- A client has the fields of a packet of `size` bytes, the counter's number and the handler of the
-- packet's command.
pub record HasPacket (c : ClientInfo) (s : State) (fd now : ℕ) (packet : ℕ → ℕ) (size : ℕ)
    : Type 0 where
  pub cli_fd : c.cli_fd ≡ fd
  pub cli_seq : c.cli_seq ≡ read_le 4 4 packet
  pub cli_cmd : c.cli_cmd ≡ read_le 2 8 packet
  pub userid : c.userid ≡ read_le 4 14 packet
  pub ser_seq : c.ser_seq ≡ s.extra.registry.serialized_no
  pub len : c.len ≡ size - 18
  pub proc_time : c.proc_time ≡ now
  pub body : (i : ℕ) → i < size - 18 → c.buf i ≡ packet (i + 18)
  pub behind : (i : ℕ) → size - 18 ≤ i → c.buf i ≡ 0
  pub handler : c.call_back_func ≡ some (get_handler (read_le 2 8 packet) s.extra.cmd_handler)

pub record Accepted (s t : State) (fd now : ℕ) (buf : ℕ → ℕ) (len ci : ℕ) : Type 0 where
  pub links :
      t.links
      ≡ list_add_tail
          (timer_node ci)
          net_timer
          (list_add_tail (fd_node ci) (fd_head fd) (init_list_head (timer_node ci) s.links))
  pub own_event :
      t.events (timer_node ci) ≡ event_of (now + s.extra.timeout_s) (some do_server_timeout) ci 0
  pub events : (a : ℕ) → timer_node ci ≢ a → t.events a ≡ s.events a
  pub own : HasPacket (client ci t) s fd now buf len
  pub clients : (d : ℕ) → ci ≢ d → client d t ≡ client d s
  pub lookup :
      (sn : ℕ)
      → get_client_info sn t.extra.registry
        ≡ (if s.extra.registry.serialized_no == sn then ci else get_client_info sn s.extra.registry)
  pub counter : t.extra.registry.serialized_no ≡ (s.extra.registry.serialized_no + 1) % 2 ^ 32
  pub max_open_fd : t.extra.max_open_fd ≡ s.extra.max_open_fd
  pub timeout_s : t.extra.timeout_s ≡ s.extra.timeout_s
  pub queue : t.extra.queue ≡ ci ∷ s.extra.queue
  pub sent : t.extra.sent ≡ s.extra.sent

-- A state whose client has its fields, and the state that `enter_client` makes of it.
abbrev prepared : ℕ → ℕ → (ℕ → ℕ) → ℕ → ℕ → Memory → Option MemPool → State → State
prepared fd now buf len ci mem pool s =
    let s' = set_data (record s.extra { memory = mem; mempool = pool }) s in
    let s1 = (event_init (timer_node ci) s').1 in
    let r = s1.extra.registry in
    set_registry
      (record r {
        clients = λ a. if ci == a then filled fd now buf len (r.clients ci) else r.clients a;
      })
      s1

enter_client-HasPacket :
    (fd now : ℕ) (buf : ℕ → ℕ) (len ci : ℕ) (mem : Memory) (pool : Option MemPool) (s : State)
    → header_size ≤ len
    → len ≤ header_size + buf_size
    → HasPacket
        (client ci (enter_client fd now ci (prepared fd now buf len ci mem pool s)))
        s
        fd
        now
        buf
        len
unfolding enter_client event_init timer_add_event set_client_info read_header
enter_client-HasPacket fd now buf len ci mem pool s lo hi = record {
  cli_fd = ground arith;
  cli_seq = ground arith;
  cli_cmd = ground arith;
  userid = ground arith;
  ser_seq = ground arith;
  len = ground arith;
  proc_time = ground arith;
  body = λ i h. ground arith;
  behind = λ i h. ground arith;
  handler = ground arith;
}

enter_client-Accepted :
    (fd now : ℕ) (buf : ℕ → ℕ) (len ci : ℕ) (mem : Memory) (pool : Option MemPool) (s : State)
    → header_size ≤ len
    → len ≤ header_size + buf_size
    → Accepted s (enter_client fd now ci (prepared fd now buf len ci mem pool s)) fd now buf len ci
unfolding enter_client event_init timer_add_event set_client_info get_client_info
enter_client-Accepted fd now buf len ci mem pool s lo hi = record {
  links = ground arith;
  own_event = ground arith;
  events = λ a h. ground (arith, h);
  own = enter_client-HasPacket fd now buf len ci mem pool s lo hi;
  clients = λ d h. ground (arith, h);
  lookup = λ sn. ground (arith, (get-set_client_info ci sn s.extra.registry).2);
  counter = ground arith;
  max_open_fd = ground arith;
  timeout_s = ground arith;
  queue = ground arith;
  sent = ground arith;
}

enter_client-mempool :
    (fd now : ℕ) (buf : ℕ → ℕ) (len ci : ℕ) (mem : Memory) (pool : Option MemPool) (s : State)
    → let t = enter_client fd now ci (prepared fd now buf len ci mem pool s) in
      (t.extra.memory ≡ mem) × (t.extra.mempool ≡ pool)
unfolding enter_client event_init timer_add_event set_client_info
enter_client-mempool fd now buf len ci mem pool s = (ground arith, ground arith)

pub proc_pkg_cli-Accepted :
    (block now fd : ℕ) (buf : ℕ → ℕ) (len : ℕ) (s : State) (ci : ℕ) (mem : Memory)
    (pool : Option MemPool)
    → mempool_calloc block s.extra.memory s.extra.mempool ≡ (ci, mem, pool)
    → ci ≢ 0
    → header_size ≤ len
    → len ≤ header_size + buf_size
    → fd < s.extra.max_open_fd
    → length s.extra.queue < queue_size
    → (t : State) × (proc_pkg_cli block now fd buf len s ≡ done t)
      × Accepted s t fd now buf len ci
      × ((t.extra.memory ≡ mem) × (t.extra.mempool ≡ pool))
unfolding proc_pkg_cli
proc_pkg_cli-Accepted block now fd buf len s ci mem pool e nz lo hi small room =
    let short : ltb max_pkg_len len ≡ false = ground arith in
    let whole : ltb len header_size ≡ false = ground arith in
    let fits : ltb (header_size + buf_size) len ≡ false = ground arith in
    let known : leb s.extra.max_open_fd fd ≡ false = ground arith in
    let free : (length s.extra.queue == queue_size) ≡ false = ground arith in
    let live : (ci == 0) ≡ false = ground (arith, nz) in
    (
      enter_client fd now ci (prepared fd now buf len ci mem pool s),
      rw (short, e, whole, live, fits, known, free) refl,
      enter_client-Accepted fd now buf len ci mem pool s lo hi,
      enter_client-mempool fd now buf len ci mem pool s,
    )
