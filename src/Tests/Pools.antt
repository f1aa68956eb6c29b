-- ===== src/Tests/Pools.antt =====
-- connection/connection_pool.cpp on two connections over a transport that always opens.
use Prim.Native.String.{String}
use thirft_proxy.Prelude.{
  ℕ, zero, suc, ◌+◌, ◌<◌, ◌≡◌, ◌≢◌, refl, Bool, true, false, none, some, List, [], ◌∷◌, arith, done,
  fault, length, get_elem?, All, ◌↔◌, ◌/◌, ◌*◌, ◌%◌, if◌then◌else◌, ◌≤◌,
}
use text.Mathlib.Text.{◌==◌ as str_eq}
use thirft_proxy.Connection.{TransportApi, Connection, available}
use thirft_proxy.ConnectionPool.{
  Pool, make_pool, init, get_connection, release, for_each, start_index, find_available,
  available_count, mark_released, recheck, shut_down,
}
use thirft_proxy.ConnectionPool.Scan.{available_at}
use thirft_proxy.ConnectionPool.Size.{addresses, copies, IsConnected, init_size}
use thirft_proxy.ConnectionPool.Lease.{
  IsReady, Leased, IsOnly, get_connection-Leased, get_connection_short, nth_lease,
  nth_lease_round_robin, get_connection_shared,
}
use thirft_proxy.ConnectionPool.Release.{
  total_available, after_release, release-after_release, available_count_lem,
}
use thirft_proxy.ConnectionPool.Failed.{IsShut, IsRetried, when_shut, when_opened, release_failed}
use thirft_proxy.ConnectionPool.Registry.{
  select_conn_pool, add_conn_pool, release_connection_by_ser, select-add_conn_pool,
  release_connection_by_ser_lem,
}

abbrev pub reliable : TransportApi
reliable = record {
  Transport = Bool;
  make = λ ip port. false;
  is_open = λ t. t;
  open_transport = λ t. (true, true);
  close = λ t. false;
  open-is_open = λ t h. refl;
  close-is_open = λ t. refl;
}

abbrev pub connection : Bool → Connection reliable
connection busy = record {
  ip = "10.1.1.83";
  port = 9093;
  last_used_time = 0;
  is_busy = busy;
  is_available = false;
  is_dead = false;
  transport = true;
}

abbrev pub pool_of : ℕ → List (Connection reliable) → Pool reliable
pool_of size cs = record {
  connections = cs;
  pool_size = size;
  min_size = 1;
  max_idle_sec = 10;
  check_interval_sec = 5;
  count = 7;
  server_name = "tis";
  last_checked_time = 100;
  ip_port_pair = ("10.1.1.83", 9093) ∷ [];
}

abbrev pub both_free : Pool reliable
both_free = pool_of 2 (connection false ∷ connection false ∷ [])

abbrev one_free : Pool reliable
one_free = pool_of 2 (connection false ∷ connection true ∷ [])

abbrev short : Pool reliable
short = pool_of 3 (connection true ∷ connection true ∷ [])

abbrev three_addresses : Pool reliable
three_addresses = record (make_pool reliable "tis" (("a", 1) ∷ ("b", 2) ∷ ("c", 3) ∷ []) 0) {
  min_size = 18;
}

both_free-IsReady : IsReady reliable both_free
both_free-IsReady = record { nonempty = omega arith; filled = refl; no_overflow = omega arith }

one_free-IsReady : IsReady reliable one_free
one_free-IsReady = record { nonempty = omega arith; filled = refl; no_overflow = omega arith }

both_available : (i : ℕ) → i < 2 → available_at reliable both_free.connections i ≡ true
unfolding available
both_available zero h = refl
both_available (suc zero) h = refl
both_available (suc (suc i)) h = absurd (omega arith)

one_only : (i : ℕ) → i < 2 → i ≢ 0 → available_at reliable one_free.connections i ≡ false
unfolding available
one_only zero h n = absurd (n refl)
one_only (suc zero) h n = refl
one_only (suc (suc i)) h n = absurd (omega arith)

one_free-IsOnly : IsOnly reliable one_free 0
unfolding available
one_free-IsOnly = record { here = refl; place = omega arith; others = one_only }

short_busy : (i : ℕ) → i < 2 → available_at reliable short.connections i ≡ false
unfolding available
short_busy zero h = refl
short_busy (suc zero) h = refl
short_busy (suc (suc i)) h = absurd (omega arith)

get_connection_run :
    get_connection reliable both_free ≡ done (some 1, record both_free { count = 8 })
unfolding get_connection start_index find_available available
get_connection_run = refl

release_run :
    release reliable 103 1 false both_free
    ≡ done (after_release reliable 103 1 false (connection false) both_free)
unfolding release mark_released available_count for_each after_release recheck shut_down available
    total_available
release_run = refl

get_connection-Leased_example : Leased reliable both_free (get_connection reliable both_free)
get_connection-Leased_example = get_connection-Leased reliable both_free both_free-IsReady

short_run : get_connection reliable short ≡ fault
short_run = get_connection_short reliable short (omega arith) (omega arith) (omega arith) short_busy

nth_lease_round_robin_example :
    nth_lease reliable 2 both_free ≡ done (some 1, record both_free { count = 10 })
nth_lease_round_robin_example =
    nth_lease_round_robin reliable 2 both_free both_free-IsReady both_available (omega arith)

get_connection_shared_example :
    (q r : Pool reliable) × (get_connection reliable one_free ≡ done (some 0, q))
    × (get_connection reliable q ≡ done (some 0, r))
get_connection_shared_example =
    get_connection_shared reliable one_free 0 one_free-IsReady (omega arith) one_free-IsOnly

init_size_example :
    (q : Pool reliable) × (init reliable 0 three_addresses ≡ done q)
    × (addresses reliable q.connections ≡ copies reliable (20 / 3) three_addresses.ip_port_pair)
    × All (IsConnected reliable) q.connections
    × (length q.connections ≡ 20 / 3 * 3)
    × (length q.connections ≡ q.pool_size ↔ q.pool_size % 3 ≡ 0)
unfolding make_pool
init_size_example = init_size reliable 0 three_addresses (omega arith) (omega arith) refl

available_count_lem_example :
    available_count reliable one_free ≡ done (total_available reliable one_free.connections)
available_count_lem_example = available_count_lem reliable one_free refl

release-after_release_run :
    release reliable 200 0 true one_free
    ≡ done (after_release reliable 200 0 true (connection false) one_free)
release-after_release_run =
    release-after_release reliable 200 0 true (connection false) one_free refl refl

release_failed_example :
    (q : Pool reliable) × (release reliable 200 1 false both_free ≡ done q)
    × (200 ≤ 100 + 5
        → All (IsShut reliable) q.connections
          × (total_available reliable q.connections ≡ 0)
          × (q.last_checked_time ≡ 100)
          × ((i : ℕ) (b : Connection reliable)
              → get_elem? both_free.connections i ≡ some b
              → get_elem? q.connections i ≡ some (when_shut reliable 1 i b)))
    × (100 + 5 < 200
        → All (IsRetried reliable) q.connections
          × (q.last_checked_time ≡ 200)
          × ((i : ℕ) (b : Connection reliable)
              → get_elem? both_free.connections i ≡ some b
              → get_elem? q.connections i ≡ some (when_opened reliable 1 i b)))
release_failed_example =
    release_failed reliable 200 1 (connection false) both_free refl refl (omega arith)

select-add_conn_pool_run :
    ((select_conn_pool reliable "tis" [] ≡ none)
      → select_conn_pool reliable "dbser" (add_conn_pool reliable both_free [])
        ≡ (if str_eq "tis" "dbser" then some both_free else select_conn_pool reliable "dbser" []))
    × ((old : Pool reliable)
        → select_conn_pool reliable "tis" [] ≡ some old
        → select_conn_pool reliable "dbser" (add_conn_pool reliable both_free [])
          ≡ select_conn_pool reliable "dbser" [])
select-add_conn_pool_run = select-add_conn_pool reliable both_free [] "dbser"

abbrev tis_only : List (String × Pool reliable)
tis_only = ("tis", both_free) ∷ []

release_connection_by_ser_lem_example :
    ((select_conn_pool reliable "tis" tis_only ≡ none)
      → release_connection_by_ser reliable 200 "tis" 0 true tis_only ≡ fault)
    × ((p : Pool reliable) (c : Connection reliable)
        → select_conn_pool reliable "tis" tis_only ≡ some p
        → length p.connections ≡ p.pool_size
        → get_elem? p.connections 0 ≡ some c
        → (n : List (String × Pool reliable)) × (release_connection_by_ser reliable 200 "tis" 0 true
              tis_only
            ≡ done n)
          × (select_conn_pool reliable "dbser" n ≡ (
              if str_eq "tis" "dbser"
              then some (after_release reliable 200 0 true c p)
              else select_conn_pool reliable "dbser" tis_only)))
release_connection_by_ser_lem_example =
    release_connection_by_ser_lem reliable 200 0 "tis" "dbser" true tis_only
