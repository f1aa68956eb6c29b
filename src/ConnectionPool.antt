-- ===== src/ConnectionPool.antt =====
-- connection/connection_pool.cpp: a pool of connections to one service. A connection that a caller
-- holds (a `shared_ptr`) is named by its place in `connection_pool_`. Each public method runs under
-- the pool's mutex, so a method is one step. `fault` is undefined behaviour: a vector read out of
-- bounds, or a division by zero.
pub mod Size
pub mod Scan
pub mod Activate
pub mod Lease
pub mod Release
pub mod Failed
pub mod Registry
use Prim.Native.String.{String}
use thirft_proxy.Prelude.{
  Outcome, done, fault, ◌>>=◌, ℕ, zero, suc, ◌+◌, ◌-◌, ◌/◌, ◌%◌, ◌^◌, Bool, true, false, not, ◌||◌,
  Option, none, some, List, [], ◌∷◌, ◌++◌, get_elem?, set, length, ◌==◌, ltb, leb, stuck,
  if◌then◌else◌, ◌&&◌,
}
use thirft_proxy.Connection.{
  TransportApi, Connection, make_connection, close_connection, available, set_busy, set_dead,
}

-- What a scan for a connection finds.
pub data Search : Type 0 where
  found : ℕ → Search
  missing : Search
  out_of_range : Search

module _ (api : TransportApi) where
  open api use {Transport, make, is_open, open_transport, close}

  abbrev pub Conns : Type 0
  Conns = List (Connection api)

  -- `count_` is a 32-bit `int`, held as its bit pattern.
  pub record Pool : Type 0 where
    pub connections : Conns
    pub pool_size : ℕ
    pub min_size : ℕ
    pub max_idle_sec : ℕ
    pub check_interval_sec : ℕ
    pub count : ℕ
    pub server_name : String
    pub last_checked_time : ℕ
    pub ip_port_pair : List (String × ℕ)

  -- The constructor leaves `last_checked_time_` unset: `garbage` is what the memory holds.
  unfoldable pub make_pool : String → List (String × ℕ) → ℕ → Pool
  make_pool server_name ip_port_pair garbage = record {
    connections = [];
    pool_size = 20;
    min_size = 18;
    max_idle_sec = 10;
    check_interval_sec = 5;
    count = 0;
    server_name = server_name;
    last_checked_time = garbage;
    ip_port_pair = ip_port_pair;
  }

  -- One round of the outer loop of `init`: a connection to every address.
  unfoldable pub connect_each : ℕ → List (String × ℕ) → Conns
  connect_each garbage [] = []
  connect_each garbage ((ip, port) ∷ rest) =
      make_connection api ip port garbage ∷ connect_each garbage rest

  unfoldable pub connect_rounds : ℕ → ℕ → List (String × ℕ) → Conns
  unfolding connect_each
  connect_rounds garbage zero pairs = []
  connect_rounds garbage (suc n) pairs =
      connect_each garbage pairs ++ connect_rounds garbage n pairs

  -- A negative `pool_size_` makes the number of rounds larger than the `unsigned` counter gets.
  unfoldable pub init : ℕ → Pool → Outcome Pool
  init garbage p =
      let n = length p.ip_port_pair in
      let made = connect_rounds garbage (p.pool_size / n) p.ip_port_pair in
      if n == 0
      then fault
      else if leb (2 ^ 31) p.pool_size
      then stuck
      else done (record p { connections = p.connections ++ made })

  -- `index = count_ % pool_size_`, where C++ rounds towards 0: a negative `count_` gives a negative
  -- index, or 0.
  unfoldable pub start_index : Pool → Option ℕ
  start_index p =
      if ltb p.count (2 ^ 31)
      then some (p.count % p.pool_size)
      else if (2 ^ 32 - p.count) % p.pool_size == 0
      then some 0
      else none

  -- The first loop of `getConnection`.
  unfoldable pub find_available : ℕ → ℕ → ℕ → Conns → Search
  find_available zero size index cs = missing
  find_available (suc rounds) size index cs = elim (get_elem? cs index) [
    | none ↦ out_of_range
    | some c ↦ elim (available api c) [
      | true ↦ found index
      | false ↦ find_available rounds size ((index + 1) % size) cs
    ]
  ]

  -- The second loop of `getConnection`: open an idle connection, or mark it dead and go on.
  unfoldable pub activate : ℕ → ℕ → Conns → Search × Conns
  activate zero i cs = (missing, cs)
  activate (suc rounds) i cs = elim (get_elem? cs i) [
    | none ↦ (out_of_range, cs)
    | some c ↦ elim c.is_busy [
      | true ↦ activate rounds (i + 1) cs
      | false ↦ elim (open_transport c.transport).0 [
        | true ↦ (
          found i,
          set cs i (set_busy api true (record c { transport = (open_transport c.transport).1 })),
        )
        | false ↦
            activate rounds (i + 1) (
              set cs i
                (set_dead api true (record c { transport = (open_transport c.transport).1 })))
      ]
    ]
  ]

  abbrev activated : Pool → Search × Conns → Outcome (Option ℕ × Pool)
  activated p (found i, cs) = done (some i, record p { connections = cs })
  activated p (missing, cs) = done (none, record p { connections = cs })
  activated p (out_of_range, cs) = fault

  abbrev searched : Pool → Search → Outcome (Option ℕ × Pool)
  searched p (found i) =
      if p.count + 1 == 2 ^ 31
      then fault
      else done (some i, record p { count = (p.count + 1) % 2 ^ 32 })
  searched p missing = activated p (activate p.pool_size 0 p.connections)
  searched p out_of_range = fault

  abbrev from_start : Pool → Option ℕ → Outcome (Option ℕ × Pool)
  from_start p none = fault
  from_start p (some i) = searched p (find_available p.pool_size p.pool_size i p.connections)

  -- The connection's place, or `none` for the null pointer.
  unfoldable pub get_connection : Pool → Outcome (Option ℕ × Pool)
  get_connection p = if p.pool_size == 0 then fault else from_start p (start_index p)

  -- The loop of `availableCount`.
  unfoldable pub count_available : ℕ → ℕ → Conns → Outcome ℕ
  count_available zero i cs = done 0
  count_available (suc rounds) i cs = elim (get_elem? cs i) [
    | none ↦ fault
    | some c ↦
        count_available rounds (i + 1) cs >>= λ n. done (if available api c then n + 1 else n)
  ]

  unfoldable pub available_count : Pool → Outcome ℕ
  unfolding count_available
  available_count p = count_available p.pool_size 0 p.connections

  -- `for (i < pool_size_)`, changing the connection at each place.
  unfoldable pub for_each : (Connection api → Connection api) → ℕ → ℕ → Conns → Outcome Conns
  for_each f zero i cs = done cs
  for_each f (suc rounds) i cs = elim (get_elem? cs i) [
    | none ↦ fault
    | some c ↦ for_each f rounds (i + 1) (set cs i (f c))
  ]

  -- The body of the loop that resets the pool after a failed call.
  unfoldable pub shut_down : Connection api → Connection api
  shut_down c = set_dead api true (record c { transport = close c.transport })

  -- The body of the loop that reopens what no caller holds.
  unfoldable pub reopen : Connection api → Connection api
  reopen c =
      if c.is_busy
      then c
      else set_dead api (not (open_transport c.transport).0)
          (record c { transport = (open_transport c.transport).1 })

  -- `now - last_checked_time_ > check_interval_sec_`: the setting may be negative.
  abbrev pub is_check_due : ℕ → Pool → Bool
  is_check_due now p =
      if ltb p.check_interval_sec (2 ^ 31)
      then ltb (p.last_checked_time + p.check_interval_sec) now
      else ltb p.last_checked_time (now + (2 ^ 32 - p.check_interval_sec))

  unfoldable pub recheck : ℕ → Pool → Outcome Pool
  recheck now p =
      if is_check_due now p
      then (for_each reopen p.pool_size 0 p.connections >>= λ cs.
          done (record p { connections = cs; last_checked_time = now }))
      else done p

  unfoldable pub mark_released : ℕ → Bool → Pool → Outcome Pool
  mark_released conn status p = elim (get_elem? p.connections conn) [
    | none ↦ fault
    | some c ↦
        if status
        then done (record p {
          connections = set p.connections conn (set_dead api false (set_busy api false c));
        })
        else (for_each shut_down p.pool_size 0 (set p.connections conn (set_busy api false c))
            >>= λ cs. done (record p { connections = cs }))
  ]

  -- `availableCount() < min_size_`: a negative setting is never above a count.
  abbrev pub is_short : ℕ → Pool → Bool
  is_short n p = ltb p.min_size (2 ^ 31) && ltb n p.min_size

  -- `release`; `now` is what `time(NULL)` returns.
  unfoldable pub release : ℕ → ℕ → Bool → Pool → Outcome Pool
  release now conn status p = mark_released conn status p >>= λ q.
      (available_count q >>= λ n. if not status || is_short n q then recheck now q else done q)

  unfoldable pub destroy : Pool → Outcome Pool
  destroy p = for_each (close_connection api) p.pool_size 0 p.connections >>= λ cs.
      done (record p { connections = cs })
