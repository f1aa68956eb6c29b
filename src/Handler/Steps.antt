-- ===== src/Handler/Steps.antt =====
-- A worker's turn for one client: the pools, and what it did, in order.
use Prim.Native.String.{String}
use thirft_proxy.Prelude.{
  Outcome, done, fault, ◌>>=◌, ℕ, Bool, Option, none, some, List, [], ◌∷◌, ◌++◌, get_elem?, set,
}
use thirft_proxy.Connection.{TransportApi, Connection}
use thirft_proxy.ConnectionPool.{Pool}
use thirft_proxy.ConnectionPool.Registry.{
  Registry, select_conn_pool, update_pool, get_connection_by_ser, release_connection_by_ser,
}
use thirft_proxy.ClientInfo.{ClientInfo}
use thirft_proxy.Proxy.{Sent}
use thirft_proxy.Proxy.Send.{send_to_client_body}
use thirft_proxy.Thrift.CheckResult.{CheckResultStruct}
use thirft_proxy.Thrift.RequestCheck.{RequestCheckStruct}
use thirft_proxy.Thrift.ReqCheckResult.{ReqCheckResult}

-- A call of a service is noted with its answer, `none` when it threw.
pub data Event : Type 0 where
  leased : String → Option ℕ → Event
  released : String → ℕ → Bool → Event
  checked : RequestCheckStruct → Option CheckResultStruct → Event
  stored : ReqCheckResult → Option ℕ → Event
  replied : Sent → Event

module _ (api : TransportApi) where
  open api use {Transport}

  pub record Turn : Type 0 where
    pub pools : Registry api
    pub events : List Event

  abbrev pub noted : Event → Turn → Turn
  noted e s = record s { events = s.events ++ e ∷ [] }

  unfoldable pub reply : ClientInfo → List ℕ → ℕ → Turn → Outcome Turn
  unfolding send_to_client_body
  reply ci body status_code s =
      send_to_client_body ci body status_code >>= λ packet. done (noted (replied packet) s)

  -- A call over the transport of the connection at a place of a pool.
  abbrev pub on_place :
      {A : Type 0}
      → String
      → ℕ
      → (Transport → A × Transport)
      → Registry api
      → Pool api
      → Option (Connection api)
      → Outcome (A × Registry api)
  on_place name conn f m p none = fault
  on_place name conn f m p (some c) =
      let (a, t) = f c.transport in
      done (
        a,
        update_pool api name
            (record p { connections = set p.connections conn (record c { transport = t }) }) m,
      )

  abbrev pub on_pool :
      {A : Type 0}
      → String
      → ℕ
      → (Transport → A × Transport)
      → Registry api
      → Option (Pool api)
      → Outcome (A × Registry api)
  on_pool name conn f m none = fault
  on_pool name conn f m (some p) = on_place name conn f m p (get_elem? p.connections conn)

  unfoldable pub on_transport :
      {A : Type 0}
      → String
      → ℕ
      → (Transport → A × Transport)
      → Registry api
      → Outcome (A × Registry api)
  on_transport name conn f m = on_pool name conn f m (select_conn_pool api name m)

  module _ (others : List Event → Registry api → Registry api) where
    -- The pools as the handler finds them for its next call.
    abbrev pub found_pools : Turn → Registry api
    found_pools s = others s.events s.pools

    unfoldable pub lease : String → Turn → Outcome (Option ℕ × Turn)
    lease name s = get_connection_by_ser api name (found_pools s) >>= λ r.
        done (r.0, noted (leased name r.0) (record s { pools = r.1 }))

    unfoldable pub release : ℕ → String → ℕ → Bool → Turn → Outcome Turn
    release now name conn ok s =
        release_connection_by_ser api now name conn ok (found_pools s) >>= λ m.
        done (noted (released name conn ok) (record s { pools = m }))

    unfoldable pub call_on :
        {A : Type 0}
        → String
        → ℕ
        → (Transport → Option A × Transport)
        → (Option A → Event)
        → Turn
        → Outcome (Option A × Turn)
    unfolding on_transport
    call_on name conn f note s = on_transport name conn f (found_pools s) >>= λ r.
        done (r.0, noted (note r.0) (record s { pools = r.1 }))
