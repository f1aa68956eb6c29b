-- ===== src/Handler/Trace.antt =====
-- What a worker's turn may look like from outside: its events, by the way it went.
use Prim.Native.String.{String}
use thirft_proxy.Prelude.{
  done, ℕ, ◌+◌, ◌≡◌, refl, ◌∙◌, ap, Bool, true, false, Option, none, some, List, [], ◌∷◌, ◌++◌, ltb,
  Bool-cases, inl, inr, append_assoc, >>=-eq-done, done_inj, length, sym,
}
use thirft_proxy.Connection.{TransportApi}
use thirft_proxy.ClientInfo.{ClientInfo}
use thirft_proxy.Proxy.Send.{packet, send_to_client_body, out_buf_size}
use thirft_proxy.Proto.{header_size}
use thirft_proxy.Thrift.CheckResult.{CheckResultStruct}
use thirft_proxy.ConnectionPool.Registry.{
  Registry, get_connection_by_ser, release_connection_by_ser,
}
use thirft_proxy.Handler.Steps.{
  Event, leased, released, checked, stored, replied, Turn, lease, release, reply, call_on,
  found_pools, on_transport,
}
use thirft_proxy.Handler.{is_exempt, unchecked, flag_of, answer_body, tis_req, dbser_req}

abbrev pub answered : ClientInfo → List ℕ → ℕ → Event
answered ci body status_code =
    replied (record { fd = ci.cli_fd; bytes = packet ci body status_code })

-- The events up to the reply, and the flag that comes of them.
pub data Checked (ci : ClientInfo) (text : List ℕ) (flag : ℕ) (ev : List Event) : Type 0 where
  exempt :
      is_exempt ci ≡ true
      → flag ≡ unchecked
      → ev ≡ answered ci [] 1002 ∷ []
      → Checked ci text flag ev
  no_connection :
      is_exempt ci ≡ false
      → flag ≡ unchecked
      → ev ≡ leased "tis" none ∷ answered ci [] 1001 ∷ []
      → Checked ci text flag ev
  judged :
      (c : ℕ) (res : CheckResultStruct)
      → is_exempt ci ≡ false
      → flag ≡ flag_of res
      → ev
        ≡ leased "tis" (some c)
          ∷ checked (tis_req ci text) (some res)
          ∷ released "tis" c true
          ∷ answered ci (answer_body ci flag) 0
          ∷ []
      → Checked ci text flag ev
  failed :
      (c : ℕ)
      → is_exempt ci ≡ false
      → flag ≡ unchecked
      → ev
        ≡ leased "tis" (some c)
          ∷ checked (tis_req ci text) none
          ∷ released "tis" c false
          ∷ answered ci [] 1001
          ∷ []
      → Checked ci text flag ev

-- The events after it.
pub data Stored (ci : ClientInfo) (text : List ℕ) (flag : ℕ) (ev : List Event) : Type 0 where
  no_store : ev ≡ leased "dbser" none ∷ [] → Stored ci text flag ev
  kept :
      (c code : ℕ) (name : List ℕ)
      → ev
        ≡ leased "dbser" (some c)
          ∷ stored (dbser_req ci text name flag) (some code)
          ∷ released "dbser" c true
          ∷ []
      → Stored ci text flag ev
  lost :
      (c : ℕ) (name : List ℕ)
      → ev
        ≡ leased "dbser" (some c)
          ∷ stored (dbser_req ci text name flag) none
          ∷ released "dbser" c false
          ∷ []
      → Stored ci text flag ev

module _ (api : TransportApi) where
  -- From `s` to `t` exactly the events `ev` were added.
  abbrev pub Adds : Turn api → Turn api → List Event → Type 0
  Adds s t ev = t.events ≡ s.events ++ ev

  pub then_event :
      (s t u : Turn api) (ev : List Event) (e : Event)
      → Adds s t ev
      → Adds t u (e ∷ [])
      → Adds s u (ev ++ e ∷ [])
  then_event s t u ev e h k = k ∙ ap (λ es. es ++ e ∷ []) h ∙ append_assoc s.events ev (e ∷ [])

  pub reply-Adds :
      (ci : ClientInfo) (body : List ℕ) (status_code : ℕ) (s t : Turn api)
      → reply api ci body status_code s ≡ done t
      → Adds s t (answered ci body status_code ∷ [])
  unfolding reply send_to_client_body
  reply-Adds ci body status_code s t h =
      elim (Bool-cases (ltb out_buf_size (header_size + length body))) [
        | inl big ↦ cc (rw big at h)
        | inr fits ↦ ap (λ (u : Turn api). u.events) (sym (done_inj (rw fits at h)))
      ]

  module _ (others : List Event → Registry api → Registry api) where
    pub lease-Adds :
        (name : String) (s : Turn api) (r : Option ℕ × Turn api)
        → lease api others name s ≡ done r
        → Adds s r.1 (leased name r.0 ∷ [])
    unfolding lease
    lease-Adds name s r h =
        let (q, e, d) =
          >>=-eq-done (get_connection_by_ser api name (found_pools api others s)) _ h in
        rw (← done_inj d) refl

    pub release-Adds :
        (now : ℕ) (name : String) (c : ℕ) (ok : Bool) (s t : Turn api)
        → release api others now name c ok s ≡ done t
        → Adds s t (released name c ok ∷ [])
    unfolding release
    release-Adds now name c ok s t h =
        let (q, e, d) =
          >>=-eq-done (release_connection_by_ser api now name c ok (found_pools api others s)) _
            h in
        rw (← done_inj d) refl

    pub call_on-Adds :
        {A : Type 0} (name : String) (c : ℕ) (f : api.Transport → Option A × api.Transport)
        (note : Option A → Event) (s : Turn api) (r : Option A × Turn api)
        → call_on api others name c f note s ≡ done r
        → Adds s r.1 (note r.0 ∷ [])
    unfolding call_on
    call_on-Adds name c f note s r h =
        let (q, e, d) = >>=-eq-done (on_transport api name c f (found_pools api others s)) _ h in
        rw (← done_inj d) refl
