-- ===== src/Handler/Finish.antt =====
-- The end of a worker's turn, and the turn of a client that `ProcPkgCli` accepted.
use thirft_proxy.Prelude.{Outcome, done, ℕ, ◌<◌, ◌≡◌, ◌⊎◌, List, [], ◌∷◌, ◌++◌}
use thirft_proxy.Connection.{TransportApi}
use thirft_proxy.ConnectionPool.Registry.{Registry}
use thirft_proxy.ClientInfo.{ClientInfo}
use thirft_proxy.Thrift.Client.{ProtocolApi}
use thirft_proxy.Thrift.IdentityServ.StoreMessage
use thirft_proxy.Handler.Steps.{Event, Turn}
use thirft_proxy.Handler.Trace.{answered, Adds}
use thirft_proxy.Handler.Balance.{replies, leases, nothing_open}
use thirft_proxy.Handler.Order.{Turned}
use thirft_proxy.Handler.Runs.{IsFair}

module _ (api : TransportApi) (proto : ProtocolApi (api.Transport)) (now garbage : ℕ)
    (others : List Event → Registry api → Registry api) (b : ℕ) (fair : IsFair api b others)
    (n k : ℕ) (pos : 0 < n) (pos_k : 0 < k) where
  abbrev Ends : Outcome (Turn api) → Type 0
  Ends r = (t : Turn api) × (r ≡ done t)

-- What a client sees of its turn: the one answer of `defaultProtoHandler`, or a turn of the message
-- handler with one reply and no connection kept.
abbrev pub Served : (api : TransportApi) → ClientInfo → Turn api → Turn api → Type 0
Served api ci s t =
    Adds api s t (answered ci [] 1001 ∷ [])
    ⊎ ((v : Turned api ci s t) × (replies (v.asking ++ v.storing) ≡ 1)
        × (leases (v.asking ++ v.storing) nothing_open ≡ nothing_open))
