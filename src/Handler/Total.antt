-- ===== src/Handler/Total.antt =====
-- On pools of their full size a turn meets no undefined behaviour, step by step.
use Prim.Native.String.{String}
use text.Mathlib.Text.{◌==◌ as str_eq}
use text.Mathlib.TextPositions.{eq_refl}
use thirft_proxy.Prelude.{
  done, ℕ, zero, suc, ◌+◌, ◌^◌, ◌%◌, ◌≤◌, ◌<◌, ◌≡◌, refl, sym, ◌∙◌, ap, Bool, false, Option, none,
  some, List, [], ◌∷◌, get_elem?, get_elem?-some, get_elem?_lt, set, length, length-set, ◌==◌,
  Bool-cases, inl, inr, arith,
}
use thirft_proxy.Connection.{TransportApi, Connection}
use thirft_proxy.ConnectionPool.{Pool, get_connection}
use thirft_proxy.ConnectionPool.Lease.{IsReady, get_connection-Leased}
use thirft_proxy.ConnectionPool.Release.{after_release, release-after_release, after_release_size}
use thirft_proxy.ConnectionPool.Registry.{
  Registry, select_conn_pool, update_pool, get_connection_by_ser, release_connection_by_ser,
  select-update_pool,
}
use native.Mathlib.Nat.{mod-lt}
use thirft_proxy.Handler.Text.{c_string}
use thirft_proxy.Handler.Steps.{on_transport}

-- A zero byte in reach makes the read of a text end.
pub c_string_total :
    (room off : ℕ) (buf : ℕ → ℕ) (k : ℕ)
    → off ≤ k
    → k < off + room
    → buf k ≡ 0
    → (s : List ℕ) × (c_string room off buf ≡ done s)
unfolding c_string
c_string_total zero off buf k lo hi z = absurd (omega arith)
c_string_total (suc room) off buf k lo hi z = elim (Bool-cases (buf off == 0)) [
  | inl e ↦ rw e ([], refl)
  | inr e ↦
      let later : off + 1 ≤ k = c_string_later off k lo e z in
      let (s, d) = c_string_total room (off + 1) buf k later (omega arith) z in
      rw (e, d) (buf off ∷ s, refl)
]
  where
    c_string_later : (off k : ℕ) → off ≤ k → (buf off == 0) ≡ false → buf k ≡ 0 → off + 1 ≤ k
    c_string_later off k lo e z = elim (Bool-cases (off == k)) [
      | inl same ↦
          let at : off ≡ k = ground (arith, same) in absurd (ground (arith, e, z, ap buf at))
      | inr differ ↦ ground (arith, differ)
    ]

module _ (api : TransportApi) where
  -- The pool of a service, with `n` connections.
  pub record HasPool (name : String) (n : ℕ) (m : Registry api) : Type 0 where
    pub pool : Pool api
    pub there : select_conn_pool api name m ≡ some pool
    pub filled : length pool.connections ≡ n
    pub size : pool.pool_size ≡ n

  -- The same, where the pool's counter can be incremented `room` times.
  pub record HasReady (name : String) (n room : ℕ) (m : Registry api) : Type 0 where
    pub has : HasPool name n m
    pub no_overflow : has.pool.count + room < 2 ^ 31

  pub HasReady-less :
      (name : String) (n room less : ℕ) (m : Registry api)
      → less ≤ room
      → HasReady name n room m
      → HasReady name n less m
  HasReady-less name n room less m le v = record {
    has = v.has;
    no_overflow = omega (arith, v.no_overflow, le);
  }

  abbrev pub SameElse : String → Registry api → Registry api → Type 0
  SameElse name m m' =
      (other : String)
      → str_eq name other ≡ false
      → select_conn_pool api other m' ≡ select_conn_pool api other m

  pub HasReady-SameElse :
      (name other : String) (n room : ℕ) (m m' : Registry api)
      → str_eq name other ≡ false
      → SameElse name m m'
      → HasReady other n room m
      → HasReady other n room m'
  HasReady-SameElse name other n room m m' ne same v = record {
    has = record {
      pool = v.has.pool;
      there = same other ne ∙ v.has.there;
      filled = v.has.filled;
      size = v.has.size;
    };
    no_overflow = v.no_overflow;
  }

  -- A pool of the same size put in the place of the one that is there.
  put_back :
      (name : String) (n : ℕ) (m : Registry api) (v : HasPool name n m) (q : Pool api)
      → length q.connections ≡ n
      → q.pool_size ≡ n
      → HasPool name n (update_pool api name q m) × SameElse name m (update_pool api name q m)
  put_back name n m v q len size = (
    record {
      pool = q;
      there = select-update_pool api name name q m v.pool v.there ∙ rw (eq_refl name) refl;
      filled = len;
      size = size;
    },
    λ other ne. select-update_pool api name other q m v.pool v.there ∙ rw ne refl,
  )

  -- What leasing from a service's pool amounts to.
  pub record LeasedFrom (name : String) (n : ℕ) (m : Registry api) : Type 0 where
    pub conn : Option ℕ
    pub pools : Registry api
    pub runs : get_connection_by_ser api name m ≡ done (conn, pools)
    pub place : (c : ℕ) → conn ≡ some c → c < n
    pub has : HasPool name n pools
    pub same : SameElse name m pools

  lease_with :
      (name : String) (n : ℕ) (m : Registry api) (v : HasPool name n m) (conn : Option ℕ)
      (q : Pool api)
      → get_connection api v.pool ≡ done (conn, q)
      → ((c : ℕ) → conn ≡ some c → c < n)
      → length q.connections ≡ n
      → q.pool_size ≡ n
      → LeasedFrom name n m
  unfolding get_connection_by_ser
  lease_with name n m v conn q e place len size =
      let (has, same) = put_back name n m v q len size in
      record {
        conn = conn;
        pools = update_pool api name q m;
        runs = rw (v.there, e) refl;
        place = place;
        has = has;
        same = same;
      }

  pub lease_total :
      (name : String) (n : ℕ) (m : Registry api) → 0 < n → HasReady name n 1 m → LeasedFrom name n m
  lease_total name n m pos v =
      let p = v.has.pool in
      let ready : IsReady api p = record {
        nonempty = rw (v.has.size) pos;
        filled = v.has.filled ∙ sym v.has.size;
        no_overflow = v.no_overflow;
      } in
      elim (get_connection-Leased api p ready) [
        | inl (d, lt, e, first) ↦
            lease_with name n m v.has (some ((p.count % p.pool_size + d) % p.pool_size))
              (record p { count = p.count + 1 }) e
              (λ c q. place_of n p.pool_size (p.count % p.pool_size + d) c pos v.has.size q)
              v.has.filled v.has.size
        | inr (inl (k, cs, e, len, none_there, opened)) ↦
            lease_with name n m v.has (some k) (record p { connections = cs }) e
              (λ c q. opened_place p.connections n k c opened.was opened.was_there v.has.filled q)
              (len ∙ v.has.size) v.has.size
        | inr (inr (cs, e, len, none_there, rest)) ↦
            lease_with name n m v.has none (record p { connections = cs }) e (λ c q. cc)
              (len ∙ v.has.size) v.has.size
      ]
    where
      place_of : (n size i c : ℕ) → 0 < n → size ≡ n → some (i % size) ≡ some c → c < n
      place_of n size i c pos same q =
          let at : i % size ≡ c = cc in
          let r : i % size < size = mod-lt i (rw same pos) in omega (arith, at, r, same)

      opened_place :
          (cs : List (Connection api)) (n k c : ℕ) (was : Connection api)
          → get_elem? cs k ≡ some was
          → length cs ≡ n
          → some k ≡ some c
          → c < n
      opened_place cs n k c was there len q =
          let at : k ≡ c = cc in omega (arith, at, get_elem?_lt cs k was there, len)

  -- Giving back a connection of the pool.
  pub release_total :
      (now : ℕ) (name : String) (conn : ℕ) (ok : Bool) (n : ℕ) (m : Registry api)
      → HasPool name n m
      → conn < n
      → (m' : Registry api) × (release_connection_by_ser api now name conn ok m ≡ done m')
        × HasPool name n m'
        × SameElse name m m'
  unfolding release_connection_by_ser
  release_total now name conn ok n m v lt =
      let p = v.pool in
      let (c, at) = get_elem?-some p.connections conn (rw (v.filled) lt) in
      let q = after_release api now conn ok c p in
      let (len, size) = after_release_size api now conn ok c p in
      let (has, same) = put_back name n m v q (len ∙ v.filled) (size ∙ v.size) in
      (
        update_pool api name q m,
        rw (v.there, release-after_release api now conn ok c p (v.filled ∙ sym v.size) at) refl,
        has,
        same,
      )

  -- Using the transport of a connection of the pool.
  pub transport_total :
      {A : Type 0} (name : String) (conn : ℕ) (f : api.Transport → A × api.Transport) (n : ℕ)
      (m : Registry api)
      → HasPool name n m
      → conn < n
      → (a : A) × (m' : Registry api) × (on_transport api name conn f m ≡ done (a, m'))
        × HasPool name n m'
        × SameElse name m m'
  unfolding on_transport
  transport_total name conn f n m v lt =
      let p = v.pool in
      let (c, at) = get_elem?-some p.connections conn (rw (v.filled) lt) in
      let c' : Connection api = record c { transport = (f c.transport).1 } in
      let q : Pool api = record p { connections = set p.connections conn c' } in
      let (has, same) =
        put_back name n m v q (length-set p.connections conn c' ∙ v.filled) v.size in
      ((f c.transport).0, update_pool api name q m, rw (v.there, at) refl, has, same)
