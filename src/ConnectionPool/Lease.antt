-- ===== src/ConnectionPool/Lease.antt =====
-- `getConnection` as a whole: what it hands out, and when it fails.
use native.Mathlib.Nat.{mod-lt, mod-eq_of_lt}
use thirft_proxy.Prelude.{
  Outcome, done, fault, ◌>>=◌, ℕ, zero, suc, ◌+◌, ◌%◌, ◌^◌, ◌≤◌, ◌<◌, ◌≡◌, ◌≢◌, ◌∙◌, ap, ◌⊎◌, inl,
  inr, Bool, true, false, Option, none, some, get_elem?, length, arith, lt→ltb, Bool-cases, ◌==◌,
}
use thirft_proxy.Connection.{TransportApi, Connection}
use thirft_proxy.ConnectionPool.{
  Conns, Pool, found, missing, get_connection, start_index, find_available, activate,
}
use thirft_proxy.ConnectionPool.Scan.{
  available_at, IsFirst, find_available_cases, every_place, find_available_short,
}
use thirft_proxy.ConnectionPool.Activate.{BusyOrDead, Opened, activate_cases}

module _ (api : TransportApi) where
  -- The pool after an `init` that divides evenly, while `count_` can be incremented.
  pub record IsReady (p : Pool api) : Type 0 where
    pub nonempty : 0 < p.pool_size
    pub filled : length p.connections ≡ p.pool_size
    pub no_overflow : p.count + 1 < 2 ^ 31

  abbrev pub NoneAvailable : Pool api → Type 0
  NoneAvailable p = (i : ℕ) → i < p.pool_size → available_at api p.connections i ≡ false

  -- The three ways a call ends.
  abbrev pub Leased : Pool api → Outcome (Option ℕ × Pool api) → Type 0
  Leased p r =
      ((d : ℕ) × (d < p.pool_size)
        × (r
            ≡ done (
              some ((p.count % p.pool_size + d) % p.pool_size),
              record p { count = p.count + 1 },
            ))
        × IsFirst api p.connections (p.count % p.pool_size) d)
      ⊎ (((k : ℕ) × (cs : Conns api) × (r ≡ done (some k, record p { connections = cs }))
            × (length cs ≡ p.pool_size)
            × NoneAvailable p
            × Opened api p.connections cs k)
          ⊎ ((cs : Conns api) × (r ≡ done (none, record p { connections = cs }))
              × (length cs ≡ p.pool_size)
              × NoneAvailable p
              × ((j : ℕ) (c : Connection api) → get_elem? cs j ≡ some c → BusyOrDead api c)))

  start_index_small :
      (p : Pool api) → p.count < 2 ^ 31 → start_index api p ≡ some (p.count % p.pool_size)
  unfolding start_index
  start_index_small p h = rw (lt→ltb _ _ h)

  -- What `get_connection` does with the answer of the scan.
  get_connection_found :
      (p : Pool api) (k : ℕ)
      → IsReady p
      → find_available api p.pool_size p.pool_size (p.count % p.pool_size) p.connections ≡ found k
      → get_connection api p ≡ done (some k, record p { count = p.count + 1 })
  unfolding get_connection
  get_connection_found p k v e =
      ground
        (arith, v.nonempty, v.no_overflow, start_index_small p (omega (arith, v.no_overflow)), e)

  get_connection_missing :
      (p : Pool api)
      → IsReady p
      → find_available api p.pool_size p.pool_size (p.count % p.pool_size) p.connections ≡ missing
      → (cs : Conns api)
      → ((k : ℕ)
          → activate api p.pool_size 0 p.connections ≡ (found k, cs)
          → get_connection api p ≡ done (some k, record p { connections = cs }))
        × (activate api p.pool_size 0 p.connections ≡ (missing, cs)
            → get_connection api p ≡ done (none, record p { connections = cs }))
  unfolding get_connection
  get_connection_missing p v e cs = (
    (λ k a. ground (arith, v.nonempty, start_index_small p (omega (arith, v.no_overflow)), e, a)),
    λ a. ground (arith, v.nonempty, start_index_small p (omega (arith, v.no_overflow)), e, a),
  )

  -- On a ready pool, whose `count_` can be incremented, the call never faults. It hands out the first
  -- available connection, in cyclic order from `count_ % pool_size_`, and then only counts the call;
  -- where none is available it hands out an idle connection that it opened and marked busy; and it
  -- returns null only where none was available and all are left busy or dead.
  pub get_connection-Leased : (p : Pool api) → IsReady p → Leased p (get_connection api p)
  get_connection-Leased p v =
      let start = p.count % p.pool_size in
      let in_range : start < length p.connections = rw v.filled (mod-lt p.count v.nonempty) in
      elim (find_available_cases api p.pool_size start p.connections in_range) [
        | inl (d, lt, e, first) ↦ inl (d, lt, get_connection_found p _ v (rw v.filled at e), first)
        | inr (e, miss) ↦
            let none_there : NoneAvailable p = λ i lt.
              every_place api p.connections start in_range (λ j k. miss j (omega (arith, v.filled)))
                i (omega (arith, v.filled)) in
            elim (activate_cases api p.pool_size 0 p.connections (omega (arith, v.filled))) [
              | inl (k, cs, a, le, len, opened) ↦ inr (
                  inl (
                    k,
                    cs,
                    (get_connection_missing p v (rw v.filled at e) cs).0 k a,
                    len ∙ v.filled,
                    none_there,
                    opened,
                  ))
              | inr (cs, a, len, before, after) ↦ inr (
                  inr (
                    cs,
                    (get_connection_missing p v (rw v.filled at e) cs).1 a,
                    len ∙ v.filled,
                    none_there,
                    λ j c q. after j c (omega arith) q,
                  ))
            ]
      ]

  -- A pool with fewer connections than `pool_size_`, none of them available, is read out of bounds.
  pub get_connection_short :
      (p : Pool api)
      → length p.connections < p.pool_size
      → p.count % p.pool_size ≤ length p.connections
      → p.count < 2 ^ 31
      → ((i : ℕ) → i < length p.connections → available_at api p.connections i ≡ false)
      → get_connection api p ≡ fault
  unfolding get_connection
  get_connection_short p short start h none_there = ground (
    arith,
    start_index_small p h,
    find_available_short api p.pool_size p.pool_size (p.count % p.pool_size) p.connections short
        start (omega arith) none_there,
  )

  abbrev pub AllAvailable : Pool api → Type 0
  AllAvailable p = (i : ℕ) → i < p.pool_size → available_at api p.connections i ≡ true

  true_not_false : {b : Bool} → b ≡ true → b ≡ false → ⊥
  true_not_false e f = cc

  start_plus_zero :
      (p : Pool api) → IsReady p → (p.count % p.pool_size + 0) % p.pool_size ≡ p.count % p.pool_size
  start_plus_zero p v = mod-eq_of_lt (omega (arith, mod-lt p.count v.nonempty)) ∙ omega arith

  lease_now :
      (p : Pool api)
      → IsReady p
      → AllAvailable p
      → get_connection api p ≡ done (some (p.count % p.pool_size), record p { count = p.count + 1 })
  lease_now p v all = elim (get_connection-Leased p v) [
    | inl (zero, lt, e, first) ↦
        e ∙ ap (λ (k : ℕ). done (some k, record p { count = p.count + 1 })) (start_plus_zero p v)
    | inl (suc d, lt, e, first) ↦ absurd (
        true_not_false (all _ (omega (arith, mod-lt (p.count % p.pool_size + 0) v.nonempty)))
          (rw v.filled at (first.before 0 (omega arith))))
    | inr (inl (k, cs, e, len, none_there, o)) ↦
        absurd (true_not_false (all 0 v.nonempty) (none_there 0 v.nonempty))
    | inr (inr (cs, e, len, none_there, o)) ↦
        absurd (true_not_false (all 0 v.nonempty) (none_there 0 v.nonempty))
  ]

  -- The answer of the `n`-th of the calls that follow (from 0), with no `release` between them.
  unfoldable pub nth_lease : ℕ → Pool api → Outcome (Option ℕ × Pool api)
  nth_lease zero p = get_connection api p
  nth_lease (suc n) p = get_connection api p >>= λ r. nth_lease n r.1

  -- Where all connections are available, and `count_` has room for the calls, they hand the
  -- connections out in turn, round and round.
  pub nth_lease_round_robin :
      (n : ℕ) (p : Pool api)
      → IsReady p
      → AllAvailable p
      → p.count + n + 1 < 2 ^ 31
      → nth_lease n p
        ≡ done (some ((p.count + n) % p.pool_size), record p { count = p.count + n + 1 })
  unfolding nth_lease
  nth_lease_round_robin zero p v all h =
      lease_now p v all
      ∙ ap (λ (m : ℕ). done (some (m % p.pool_size), record p { count = m + 1 })) (omega arith)
  nth_lease_round_robin (suc n) p v all h =
      let q : Pool api = record p { count = p.count + 1 } in
      let v' : IsReady q = record {
        nonempty = v.nonempty;
        filled = v.filled;
        no_overflow = omega arith;
      } in
      rw (lease_now p v all) (
        nth_lease_round_robin n q v' all (omega arith)
        ∙ ap (λ (m : ℕ). done (some (m % p.pool_size), record p { count = m + 1 })) (omega arith))

  -- Only the connection at `k` is available.
  pub record IsOnly (p : Pool api) (k : ℕ) : Type 0 where
    pub here : available_at api p.connections k ≡ true
    pub place : k < p.pool_size
    pub others : (i : ℕ) → i < p.pool_size → i ≢ k → available_at api p.connections i ≡ false

  lease_only :
      (p : Pool api) (k : ℕ)
      → IsReady p
      → IsOnly p k
      → get_connection api p ≡ done (some k, record p { count = p.count + 1 })
  lease_only p k v only = elim (get_connection-Leased p v) [
    | inl (d, lt, e, first) ↦
        let i = (p.count % p.pool_size + d) % p.pool_size in
        elim (Bool-cases (i == k)) [
          | inl same ↦
              e
              ∙ ap (λ (j : ℕ). done (some j, record p { count = p.count + 1 }))
                  (ground (arith, same))
          | inr other ↦ absurd (
              true_not_false (rw v.filled at first.hit) (
                only.others i (mod-lt (p.count % p.pool_size + d) v.nonempty)
                  (ground (arith, other))))
        ]
    | inr (inl (j, cs, e, len, none_there, o)) ↦
        absurd (true_not_false only.here (none_there k only.place))
    | inr (inr (cs, e, len, none_there, o)) ↦
        absurd (true_not_false only.here (none_there k only.place))
  ]

  -- A connection that is handed out as available is not marked busy: where it is the only one
  -- available, and `count_` has room for both calls, the next call hands the same connection to a
  -- second caller.
  pub get_connection_shared :
      (p : Pool api) (k : ℕ)
      → IsReady p
      → p.count + 2 < 2 ^ 31
      → IsOnly p k
      → (q r : Pool api) × (get_connection api p ≡ done (some k, q))
        × (get_connection api q ≡ done (some k, r))
  get_connection_shared p k v h only =
      let q : Pool api = record p { count = p.count + 1 } in
      let r : Pool api = record q { count = q.count + 1 } in
      (
        q,
        r,
        lease_only p k v only,
        lease_only q k
            (record { nonempty = v.nonempty; filled = v.filled; no_overflow = omega (arith, h) })
            (record { here = only.here; place = only.place; others = only.others }),
      )
