-- ===== src/Handler/Balance.antt =====
-- What every order of Handler/Trace has in common: one reply, and each lease given back once.
use Prim.Native.String.{String}
use text.Mathlib.Text.{◌==◌ as str_eq}
use thirft_proxy.Prelude.{
  done, ℕ, ◌+◌, ◌≡◌, refl, ◌∙◌, ap, ◌&&◌, none, some, List, [], ◌∷◌, ◌++◌, ◌==◌, if◌then◌else◌,
  arith,
}
use thirft_proxy.Connection.{TransportApi}
use thirft_proxy.ClientInfo.{ClientInfo}
use thirft_proxy.Thrift.Client.{ProtocolApi}
use thirft_proxy.ConnectionPool.Registry.{Registry}
use thirft_proxy.Handler.Steps.{Event, leased, released, checked, stored, replied, Turn}
use thirft_proxy.Handler.{handle_tis}
use thirft_proxy.Handler.Trace.{
  Checked, exempt, no_connection, judged, failed, Stored, no_store, kept, lost,
}
use thirft_proxy.Handler.Order.{Turned, handle_tis-Turned}

unfoldable pub replies : List Event → ℕ
replies [] = 0
replies (leased name c ∷ ev) = replies ev
replies (released name c ok ∷ ev) = replies ev
replies (checked req res ∷ ev) = replies ev
replies (stored req code ∷ ev) = replies ev
replies (replied packet ∷ ev) = 1 + replies ev

-- The leases that are open after the events, `none` when one is given back that is not the last one
-- open.
pub data Leases : Type 0 where
  open_leases : List (String × ℕ) → Leases
  wrong : Leases

abbrev pub give_back : String → ℕ → List (String × ℕ) → Leases
give_back name c [] = wrong
give_back name c ((n, d) ∷ rest) = if str_eq n name && (d == c) then open_leases rest else wrong

abbrev pub next : Event → Leases → Leases
next e wrong = wrong
next (leased name none) (open_leases ls) = open_leases ls
next (leased name (some c)) (open_leases ls) = open_leases ((name, c) ∷ ls)
next (released name c ok) (open_leases ls) = give_back name c ls
next (checked req res) (open_leases ls) = open_leases ls
next (stored req code) (open_leases ls) = open_leases ls
next (replied packet) (open_leases ls) = open_leases ls

unfoldable pub leases : List Event → Leases → Leases
leases [] ls = ls
leases (e ∷ ev) ls = leases ev (next e ls)

abbrev pub nothing_open : Leases
nothing_open = open_leases []

Checked-replies :
    {ci : ClientInfo} {text : List ℕ} {flag : ℕ} {ev : List Event}
    → Checked ci text flag ev
    → (replies ev ≡ 1) × (leases ev nothing_open ≡ nothing_open)
unfolding replies leases
Checked-replies (exempt x f e) = rw e (refl, refl)
Checked-replies (no_connection x f e) = rw e (refl, refl)
Checked-replies (judged c res x f e) = rw e (refl, ground arith)
Checked-replies (failed c x f e) = rw e (refl, ground arith)

Stored-replies :
    {ci : ClientInfo} {text : List ℕ} {flag : ℕ} {ev : List Event}
    → Stored ci text flag ev
    → (replies ev ≡ 0) × (leases ev nothing_open ≡ nothing_open)
unfolding replies leases
Stored-replies (no_store e) = rw e (refl, refl)
Stored-replies (kept c code name e) = rw e (refl, ground arith)
Stored-replies (lost c name e) = rw e (refl, ground arith)

replies-append : (ev ev' : List Event) → replies (ev ++ ev') ≡ replies ev + replies ev'
unfolding replies
replies-append [] ev' = omega arith
replies-append (leased name c ∷ ev) ev' = replies-append ev ev'
replies-append (released name c ok ∷ ev) ev' = replies-append ev ev'
replies-append (checked req res ∷ ev) ev' = replies-append ev ev'
replies-append (stored req code ∷ ev) ev' = replies-append ev ev'
replies-append (replied packet ∷ ev) ev' = omega (arith, replies-append ev ev')

leases-append :
    (ev ev' : List Event) (ls : Leases) → leases (ev ++ ev') ls ≡ leases ev' (leases ev ls)
unfolding leases
leases-append [] ev' ls = refl
leases-append (e ∷ ev) ev' ls = leases-append ev ev' (next e ls)

-- Whatever the other threads do to the pools between its steps, a turn of the message handler that
-- ends has replied exactly once, and has given back exactly the connections that it leased, each to
-- its own service and before it leased the next; these events are those of one of the orders of
-- `Turned`.
pub handle_tis_lem :
    (api : TransportApi) (proto : ProtocolApi (api.Transport)) (now garbage : ℕ)
    (others : List Event → Registry api → Registry api) (ci : ClientInfo) (s t : Turn api)
    → handle_tis api proto now garbage others ci s ≡ done t
    → (v : Turned api ci s t) × (replies (v.asking ++ v.storing) ≡ 1)
      × (leases (v.asking ++ v.storing) nothing_open ≡ nothing_open)
handle_tis_lem api proto now garbage others ci s t h =
    let v = handle_tis-Turned api proto now garbage others ci s t h in
    let (ra, la) = Checked-replies v.was_checked in
    let (rs, ls) = Stored-replies v.was_stored in
    (
      v,
      omega (arith, replies-append v.asking v.storing, ra, rs),
      leases-append v.asking v.storing nothing_open ∙ ap (leases v.storing) la ∙ ls,
    )
