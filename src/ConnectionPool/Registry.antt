-- ===== src/ConnectionPool/Registry.antt =====
-- The static map from service names to pools. A pool is one object, shared by all who hold it, so
-- a call through the map changes the pool in the map.
use Prim.Native.String.{String}
use text.Mathlib.Text.{◌==◌ as str_eq}
use text.Mathlib.TextEquality.{eq_iff}
use thirft_proxy.Prelude.{
  Outcome, done, fault, ◌>>=◌, ℕ, ◌≡◌, Bool, Option, none, some, List, [], ◌∷◌, arith,
  if◌then◌else◌, get_elem?, length, inl, inr, Bool-cases,
}
use thirft_proxy.Connection.{TransportApi, Connection}
use thirft_proxy.ConnectionPool.{Pool, get_connection, release}
use thirft_proxy.ConnectionPool.Release.{after_release, release-after_release}

module _ (api : TransportApi) where
  abbrev pub Registry : Type 0
  Registry = List (String × Pool api)

  unfoldable pub select_conn_pool : String → Registry → Option (Pool api)
  select_conn_pool name [] = none
  select_conn_pool name ((key, p) ∷ m) = if str_eq key name then some p else select_conn_pool name m

  -- A change of the pool that the map holds under a name.
  unfoldable pub update_pool : String → Pool api → Registry → Registry
  update_pool name q [] = []
  update_pool name q ((key, p) ∷ m) =
      if str_eq key name then (key, q) ∷ m else (key, p) ∷ update_pool name q m

  abbrev insert_new : String → Pool api → Registry → Option (Pool api) → Registry
  insert_new name p m none = (name, p) ∷ m
  insert_new name p m (some old) = m

  -- `insert` of an `unordered_map` keeps the entry that is there.
  unfoldable pub add_conn_pool : Pool api → Registry → Registry
  add_conn_pool p m = insert_new p.server_name p m (select_conn_pool p.server_name m)

  abbrev leased : String → Registry → Option ℕ × Pool api → Outcome (Option ℕ × Registry)
  leased name m (conn, q) = done (conn, update_pool name q m)

  abbrev lease_from : String → Registry → Option (Pool api) → Outcome (Option ℕ × Registry)
  lease_from name m none = done (none, m)
  lease_from name m (some p) = get_connection api p >>= leased name m

  -- `none` is the null pointer, for an unknown service or an exhausted pool.
  unfoldable pub get_connection_by_ser : String → Registry → Outcome (Option ℕ × Registry)
  get_connection_by_ser name m = lease_from name m (select_conn_pool name m)

  abbrev release_to : ℕ → String → ℕ → Bool → Registry → Option (Pool api) → Outcome Registry
  release_to now name conn state m none = fault
  release_to now name conn state m (some p) =
      release api now conn state p >>= λ q. done (update_pool name q m)

  -- The null pointer is used after its test has only logged it.
  unfoldable pub release_connection_by_ser : ℕ → String → ℕ → Bool → Registry → Outcome Registry
  release_connection_by_ser now name conn state m =
      release_to now name conn state m (select_conn_pool name m)

  pub select-update_pool :
      (name other : String) (q : Pool api) (m : Registry) (p : Pool api)
      → select_conn_pool name m ≡ some p
      → select_conn_pool other (update_pool name q m)
        ≡ (if str_eq name other then some q else select_conn_pool other m)
  unfolding select_conn_pool update_pool
  select-update_pool name other q [] p h = cc
  select-update_pool name other q ((key, r) ∷ m) p h = elim (Bool-cases (str_eq key name)) [
    | inl same ↦ ground (arith, same, eq_iff key name, eq_iff key other, eq_iff name other)
    | inr differ ↦ ground (
      arith,
      differ,
      eq_iff key name,
      eq_iff key other,
      eq_iff name other,
      select-update_pool name other q m p (rw (differ, select_conn_pool) at h),
    )
  ]

  -- Adding a pool makes it the one of its service if there was none, keeps the older one if there
  -- was, and changes no other service.
  pub select-add_conn_pool :
      (p : Pool api) (m : Registry) (name : String)
      → ((select_conn_pool p.server_name m ≡ none)
          → select_conn_pool name (add_conn_pool p m)
            ≡ (if str_eq p.server_name name then some p else select_conn_pool name m))
        × ((old : Pool api)
            → select_conn_pool p.server_name m ≡ some old
            → select_conn_pool name (add_conn_pool p m) ≡ select_conn_pool name m)
  unfolding add_conn_pool select_conn_pool
  select-add_conn_pool p m name = ((λ e. rw e), λ old e. rw e)

  -- Releasing to a service that has a pool changes that service's pool as `release` does, and no
  -- other; releasing to a service without one uses a null pointer.
  pub release_connection_by_ser_lem :
      (now conn : ℕ) (name other : String) (state : Bool) (m : Registry)
      → ((select_conn_pool name m ≡ none) → release_connection_by_ser now name conn state m ≡ fault)
        × ((p : Pool api) (c : Connection api)
            → select_conn_pool name m ≡ some p
            → length p.connections ≡ p.pool_size
            → get_elem? p.connections conn ≡ some c
            → (n : Registry) × (release_connection_by_ser now name conn state m ≡ done n)
              × (select_conn_pool other n ≡ (
                  if str_eq name other
                  then some (after_release api now conn state c p)
                  else select_conn_pool other m)))
  unfolding release_connection_by_ser
  release_connection_by_ser_lem now conn name other state m = (
    (λ e. rw e),
    λ p c e size at. (
      update_pool name (after_release api now conn state c p) m,
      rw (e, release-after_release api now conn state c p size at),
      select-update_pool name other _ m p e,
    ),
  )
