-- ===== src/Proxy.antt =====
-- base/proxy.cpp: the request life cycle. The state is the `Store` of the timer: the links of all
-- lists, the timed events, and `Data`, the rest.
-- A `list_head` cell is named by a number: each client `ci` has the cells `fd_list_node` and
-- `timer_node`, each descriptor a cell of `g_client_fd_list`, and `g_net_timer` is one cell. That
-- cells of two clients differ is what the memory pool promises of two live items.
pub mod Invariant
pub mod Cells
pub mod Destroy
pub mod Leave
pub mod Member
pub mod Expire
pub mod Accept
pub mod Enter
pub mod Arrive
pub mod LinkDown
pub mod Send
pub mod Start
pub mod Heads
pub mod Begin
pub mod Stop
use thirft_proxy.Prelude.{
  ℕ, zero, suc, ◌+◌, ◌-◌, ◌*◌, ◌/◌, ◌%◌, ◌^◌, ◌||◌, Option, none, some, List, ◌∷◌, ◌==◌, leb, ltb,
  if◌then◌else◌, Outcome, done, fault, stuck, length,
}
use thirft_proxy.ListHead.{list_add_tail, list_del_init}
use thirft_proxy.Timer.{
  Store, Code, set_links, timer_add_event, timer_del_event, event_init, timer_check_event,
}
use thirft_proxy.Mempool.{Memory, MemPool, mempool_calloc, mempool_free}
use thirft_proxy.ClientInfo.{
  ClientInfo, Registry, set_client, get_client_info, set_client_info, remove_client_info,
}
use thirft_proxy.CmdHandler.{CmdMap, get_handler}
use thirft_proxy.Proto.{header_size, read_header, write_header}

-- `Proxy::DoServerTimeout`, the one function that events carry.
pub data Callback : Type 0 where
  do_server_timeout : Callback

-- A packet given to `net_send_cli`.
pub record Sent : Type 0 where
  pub fd : ℕ
  pub bytes : List ℕ

-- `queue` is the thread pool's, newest first.
pub record Data : Type 0 where
  pub registry : Registry
  pub mempool : Option MemPool
  pub memory : Memory
  pub cmd_handler : CmdMap
  pub queue : List ℕ
  pub sent : List Sent
  pub max_open_fd : ℕ
  pub timeout_s : ℕ

abbrev pub State : Type 0
State = Store Callback Data

abbrev pub fd_node : ℕ → ℕ
fd_node ci = 4 * ci + 1

abbrev pub timer_node : ℕ → ℕ
timer_node ci = 4 * ci + 2

abbrev pub fd_head : ℕ → ℕ
fd_head fd = 4 * fd + 3

abbrev pub net_timer : ℕ
net_timer = 4

-- The client that a cell belongs to: `list_entry`.
abbrev pub entry : ℕ → ℕ
entry cell = cell / 4

abbrev pub client : ℕ → State → ClientInfo
client ci s = s.extra.registry.clients ci

abbrev pub set_data : Data → State → State
set_data d s = record s { extra = d }

abbrev pub set_registry : Registry → State → State
set_registry r s = set_data (record s.extra { registry = r }) s

-- The link that `mempool_free` writes into an item is in the first eight bytes of the client there,
-- which are its first two fields.
abbrev pub linked : Option MemPool → ClientInfo → ClientInfo
linked none c = c
linked (some p) c = record c {
  cli_fd = p.reuse_ptr % 2 ^ 32;
  cli_seq = p.reuse_ptr / 2 ^ 32 % 2 ^ 32;
}

-- The item goes back to the pool.
abbrev pub give_back : ℕ → State → State
give_back ci s =
    let (_, mem, pool) = mempool_free ci s.extra.memory s.extra.mempool in
    let r = s.extra.registry in
    set_data
      (record s.extra {
        registry = record r {
          clients = set_client ci (linked s.extra.mempool (r.clients ci)) r.clients;
        };
        memory = mem;
        mempool = pool;
      })
      s

-- `DestroyClient`.
unfoldable pub destroy_client : ℕ → State → State
destroy_client sn s =
    let ci = get_client_info sn s.extra.registry in
    let s1 = set_links (list_del_init (fd_node ci) s.links) s in
    let s2 = give_back ci s1 in
    let s3 = set_registry (remove_client_info sn s2.extra.registry) s2 in
    if ci == 0 then s else (timer_del_event (timer_node ci) s3).1

-- `DoServerTimeout`, as the timer calls it.
unfoldable pub call_back : Callback → ℕ → ℕ → State → State
unfolding destroy_client
call_back do_server_timeout owner arg s = destroy_client (client owner s).ser_seq s

unfoldable pub time_event : ℕ → ℕ → State → Option (Code × State)
unfolding call_back
time_event fuel now s = timer_check_event call_back fuel now net_timer s

-- The loop of `LinkDownCli`: the node after `pos` is read before the client of `pos` goes.
unfoldable pub link_down_loop : ℕ → ℕ → ℕ → ℕ → State → Option State
unfolding destroy_client
link_down_loop zero head pos next s = none
link_down_loop (suc fuel) head pos next s =
    let s' = destroy_client (client (entry pos) s).ser_seq s in
    let rest = link_down_loop fuel head next (s'.links.next next) s' in
    if pos == head then some s else rest

-- `fd` is not negative here; the code returns at a negative one as at one that is too large.
unfoldable pub link_down_cli : ℕ → ℕ → State → Option State
unfolding link_down_loop
link_down_cli fuel fd s =
    let first = s.links.next (fd_head fd) in
    let rest = link_down_loop fuel (fd_head fd) first (s.links.next first) s in
    if leb s.extra.max_open_fd fd then some s else rest

abbrev pub net_send_cli : ℕ → List ℕ → State → State
net_send_cli fd bytes s =
    set_data (record s.extra { sent = record { fd = fd; bytes = bytes } ∷ s.extra.sent }) s

-- `SendToClient` before there is a client: a header alone.
unfoldable pub send_to_client : ℕ → ℕ → ℕ → ℕ → ℕ → State → State
send_to_client fd seq_num cmd_id status_code user_id s =
    net_send_cli fd
      (write_header (record {
        pkg_len = header_size;
        seq_num = seq_num;
        cmd_id = cmd_id;
        status_code = status_code;
        user_id = user_id;
      }))
      s

-- The room in `ClientInfo::buf`.
abbrev pub buf_size : ℕ
buf_size = 4096

abbrev pub max_pkg_len : ℕ
max_pkg_len = 8192

-- The client's fields from the packet; bytes behind the body are cleared.
abbrev pub filled : ℕ → ℕ → (ℕ → ℕ) → ℕ → ClientInfo → ClientInfo
filled fd now buf len c =
    let header = read_header buf in
    record c {
      cli_seq = header.seq_num;
      cli_fd = fd;
      cli_cmd = header.cmd_id;
      userid = header.user_id;
      len = (len + 2 ^ 32 - header_size) % 2 ^ 32;
      proc_time = now;
      buf = λ i. if ltb i (len - header_size) then buf (i + header_size) else 0;
    }

-- The rest of `ProcPkgCli` once the client has its fields.
unfoldable pub enter_client : ℕ → ℕ → ℕ → State → State
enter_client fd now ci s =
    let (_, registry) = set_client_info ci s.extra.registry in
    let s1 = set_registry registry s in
    let s2 = set_links (list_add_tail (fd_node ci) (fd_head fd) s1.links) s1 in
    let (_, s3) =
      timer_add_event net_timer (timer_node ci) (now + s.extra.timeout_s) (some do_server_timeout)
        ci 0 s2 in
    let c = client ci s3 in
    let accepted = record c {
      call_back_func = some (get_handler c.cli_cmd s3.extra.cmd_handler);
    } in
    let r = s3.extra.registry in
    set_data
      (record s3.extra {
        registry = record r { clients = set_client ci accepted r.clients };
        queue = ci ∷ s3.extra.queue;
      })
      s3

-- At how many clients `put` waits: `Proxy` leaves the thread pool's size at its default.
abbrev pub queue_size : ℕ
queue_size = 20

-- With a client from the pool. The copy of the body leaves `buf` unless the packet has at most
-- `buf_size` bytes behind its header; the list of a descriptor beyond the array is out of bounds.
-- `put` waits for a worker while the queue has exactly that size.
abbrev pub with_client : ℕ → ℕ → (ℕ → ℕ) → ℕ → ℕ → State → Outcome State
with_client fd now buf len ci s =
    let s1 = (event_init (timer_node ci) s).1 in
    let r = s1.extra.registry in
    let s2 =
      set_registry
        (record r { clients = set_client ci (filled fd now buf len (r.clients ci)) r.clients })
        s1 in
    if ltb (header_size + buf_size) len || leb s.extra.max_open_fd fd
    then fault
    else if length s.extra.queue == queue_size
    then stuck
    else done (enter_client fd now ci s2)

-- The header is read from the packet first, with a client or without; a packet that has no whole
-- header is read past its end.
abbrev pub received : ℕ → ℕ → (ℕ → ℕ) → ℕ → State → ℕ × Memory × Option MemPool → Outcome State
received fd now buf len s (ci, mem, pool) =
    let s' = set_data (record s.extra { memory = mem; mempool = pool }) s in
    let h = read_header buf in
    if ltb len header_size
    then fault
    else if ci == 0
    then done (send_to_client fd h.seq_num h.cmd_id 1001 h.user_id s')
    else with_client fd now buf len ci s'

-- `ProcPkgCli`. `block` is what `malloc` returns if the pool calls it, `now` what `time` returns.
unfoldable pub proc_pkg_cli : ℕ → ℕ → ℕ → (ℕ → ℕ) → ℕ → State → Outcome State
unfolding enter_client send_to_client
proc_pkg_cli block now fd buf len s =
    if ltb max_pkg_len len
    then done s
    else received fd now buf len s (mempool_calloc block s.extra.memory s.extra.mempool)
