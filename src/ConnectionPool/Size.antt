-- ===== src/ConnectionPool/Size.antt =====
-- How many connections `init` makes.
use Prim.Native.String.{String}
use thirft_proxy.Prelude.{
  done, ◌^◌, All, All-append, not, false, ℕ, zero, suc, ◌*◌, ◌/◌, ◌%◌, ◌<◌, ◌≡◌, ◌↔◌, refl, ap, ◌∙◌,
  List, [], ◌∷◌, ◌++◌, length, length-append, arith,
}
use thirft_proxy.Connection.{TransportApi, Connection, make_connection}
use thirft_proxy.ConnectionPool.{Pool, connect_each, connect_rounds, init}

module _ (api : TransportApi) where
  open api use {make, open_transport}

  length-connect_each :
      (g : ℕ) (pairs : List (String × ℕ)) → length (connect_each api g pairs) ≡ length pairs
  unfolding connect_each
  length-connect_each g [] = refl
  length-connect_each g ((ip, port) ∷ rest) = ap suc (length-connect_each g rest)

  length-connect_rounds :
      (g n : ℕ) (pairs : List (String × ℕ))
      → length (connect_rounds api g n pairs) ≡ n * length pairs
  unfolding connect_rounds
  length-connect_rounds g zero pairs = omega arith
  length-connect_rounds g (suc n) pairs =
      length-append (connect_each api g pairs) (connect_rounds api g n pairs)
      ∙ omega (arith, length-connect_each g pairs, length-connect_rounds g n pairs)

  -- The addresses of connections, in order.
  abbrev pub addresses : List (Connection api) → List (String × ℕ)
  addresses [] = []
  addresses (c ∷ cs) = (c.ip, c.port) ∷ addresses cs

  -- The transport is the one that was opened to the connection's own address.
  abbrev pub IsConnected : Connection api → Type 0
  IsConnected c =
      (c.transport ≡ (open_transport (make c.ip c.port)).1)
      × ((c.is_busy ≡ false) × (c.is_dead ≡ not (open_transport (make c.ip c.port)).0))

  abbrev pub copies : ℕ → List (String × ℕ) → List (String × ℕ)
  copies zero l = []
  copies (suc n) l = l ++ copies n l

  addresses-append :
      (cs ds : List (Connection api)) → addresses (cs ++ ds) ≡ addresses cs ++ addresses ds
  addresses-append [] ds = refl
  addresses-append (c ∷ cs) ds = ap (◌∷◌ (c.ip, c.port)) (addresses-append cs ds)

  addresses-connect_each :
      (g : ℕ) (pairs : List (String × ℕ)) → addresses (connect_each api g pairs) ≡ pairs
  unfolding connect_each make_connection
  addresses-connect_each g [] = refl
  addresses-connect_each g ((ip, port) ∷ rest) = ap (◌∷◌ (ip, port)) (addresses-connect_each g rest)

  addresses-connect_rounds :
      (g n : ℕ) (pairs : List (String × ℕ))
      → addresses (connect_rounds api g n pairs) ≡ copies n pairs
  unfolding connect_rounds
  addresses-connect_rounds g zero pairs = refl
  addresses-connect_rounds g (suc n) pairs =
      addresses-append (connect_each api g pairs) (connect_rounds api g n pairs)
      ∙ rw (addresses-connect_each g pairs, addresses-connect_rounds g n pairs) refl

  connect_each-All :
      (g : ℕ) (pairs : List (String × ℕ)) → All IsConnected (connect_each api g pairs)
  unfolding connect_each make_connection
  connect_each-All g [] = tt
  connect_each-All g ((ip, port) ∷ rest) = ((refl, (refl, refl)), connect_each-All g rest)

  connect_rounds-All :
      (g n : ℕ) (pairs : List (String × ℕ)) → All IsConnected (connect_rounds api g n pairs)
  unfolding connect_rounds
  connect_rounds-All g zero pairs = tt
  connect_rounds-All g (suc n) pairs =
      All-append IsConnected (connect_each api g pairs) (connect_rounds api g n pairs)
        (connect_each-All g pairs) (connect_rounds-All g n pairs)

  -- On an empty pool with at least one address and a `pool_size` that is not negative, `init`
  -- succeeds with `pool_size / n` rounds of connections, each round with one to each of the `n`
  -- addresses in order; each transport was opened to its connection's address, and a connection is
  -- dead when that failed. These are `pool_size` connections exactly when `n` divides it.
  pub init_size :
      (g : ℕ) (p : Pool api)
      → 0 < length p.ip_port_pair
      → p.pool_size < 2 ^ 31
      → p.connections ≡ []
      → (q : Pool api) × (init api g p ≡ done q)
        × (addresses q.connections ≡ copies (p.pool_size / length p.ip_port_pair) p.ip_port_pair)
        × All IsConnected q.connections
        × (length q.connections ≡ p.pool_size / length p.ip_port_pair * length p.ip_port_pair)
        × (length q.connections ≡ q.pool_size ↔ q.pool_size % length p.ip_port_pair ≡ 0)
  unfolding init
  init_size g p h small e =
      let n = length p.ip_port_pair in
      let made = connect_rounds api g (p.pool_size / n) p.ip_port_pair in
      let sized : length (p.connections ++ made) ≡ p.pool_size / n * n =
        rw e (length-connect_rounds g (p.pool_size / n) p.ip_port_pair) in
      (
        record p { connections = p.connections ++ made },
        ground arith,
        rw e (addresses-connect_rounds g (p.pool_size / n) p.ip_port_pair),
        rw e (connect_rounds-All g (p.pool_size / n) p.ip_port_pair),
        sized,
        ((λ q. grind arith), λ q. grind arith),
      )
