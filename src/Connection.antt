-- ===== src/Connection.antt =====
-- connection/connection.h: one connection to a backend. The Thrift transport is a library's: it is
-- an interface here, whose laws are what the library documents of `open` and `close`.
use Prim.Native.String.{String}
use thirft_proxy.Prelude.{ℕ, ◌≡◌, Bool, true, false, not, ◌&&◌, if◌then◌else◌}

-- `open` tells whether it returned (`true`) or threw a `TException` (`false`), with the transport
-- after the call. What the network will do is part of the transport's value.
pub record TransportApi : Type 1 where
  pub Transport : Type 0
  pub make : String → ℕ → Transport
  pub is_open : Transport → Bool
  pub open_transport : Transport → Bool × Transport
  pub close : Transport → Transport
  pub open-is_open :
      (t : Transport) → (open_transport t).0 ≡ true → is_open (open_transport t).1 ≡ true
  pub close-is_open : (t : Transport) → is_open (close t) ≡ false

module _ (api : TransportApi) where
  open api use {Transport, make, is_open, open_transport, close}

  pub record Connection : Type 0 where
    pub ip : String
    pub port : ℕ
    pub last_used_time : ℕ
    pub is_busy : Bool
    pub is_available : Bool
    pub is_dead : Bool
    pub transport : Transport

  -- The constructor, then `init`: the transport is made by `init`, and `last_used_time_` is never
  -- given a value, so the memory's is taken as it comes.
  unfoldable pub make_connection : String → ℕ → ℕ → Connection
  make_connection ip port garbage =
      let (opened, t) = open_transport (make ip port) in
      record {
        ip = ip;
        port = port;
        last_used_time = garbage;
        is_busy = false;
        is_available = false;
        is_dead = not opened;
        transport = t;
      }

  -- `destroy`.
  unfoldable pub close_connection : Connection → Connection
  close_connection c = record c { transport = close c.transport }

  unfoldable pub available : Connection → Bool
  available c = not c.is_busy && (not c.is_dead && is_open c.transport)

  abbrev pub set_busy : Bool → Connection → Connection
  set_busy b c = record c { is_busy = b }

  abbrev pub set_dead : Bool → Connection → Connection
  set_dead b c = record c { is_dead = b }

  abbrev pub set_last_used_time : ℕ → Connection → Connection
  set_last_used_time t c = record c { last_used_time = t }

  -- `Connection::release`.
  unfoldable pub release_connection : Bool → Connection → Connection
  release_connection state c = set_busy false (if state then set_dead false c else set_dead true c)
