-- ===== src/Handler/Order.antt =====
-- Every turn of the message handler that ends has one of the orders of Handler/Trace.
use thirft_proxy.Prelude.{
  done, ◌>>=◌, >>=-eq-done, done_inj, ℕ, ◌+◌, ◌-◌, ◌≡◌, refl, ◌∙◌, ap, Bool, true, false, Option,
  none, some, List, [], ◌∷◌, ◌++◌, ltb, Bool-cases, inl, inr, append_assoc,
}
use thirft_proxy.Connection.{TransportApi}
use thirft_proxy.ClientInfo.{ClientInfo}
use thirft_proxy.Proxy.{buf_size}
use thirft_proxy.Thrift.Client.{ProtocolApi}
use thirft_proxy.Thrift.CheckResult.{CheckResultStruct, new_check_result}
use thirft_proxy.Thrift.TisService.Check
use thirft_proxy.Thrift.IdentityServ.StoreMessage
use thirft_proxy.ConnectionPool.Registry.{Registry}
use thirft_proxy.Handler.Text.{c_string}
use thirft_proxy.Handler.Steps.{
  Event, leased, released, checked, stored, Turn, lease, release, reply, call_on,
}
use thirft_proxy.Handler.{
  is_exempt, unchecked, flag_of, answer_body, max_out_buf_len, nick_at, content_at, tis_req,
  dbser_req, after_check, with_tis, check_message, after_store, with_dbser, store_message,
  handle_tis,
}
use thirft_proxy.Handler.Trace.{
  answered, Checked, exempt, no_connection, judged, failed, Stored, no_store, kept, lost, Adds,
  then_event, reply-Adds, lease-Adds, release-Adds, call_on-Adds,
}

module _ (api : TransportApi) (proto : ProtocolApi (api.Transport)) (now garbage : ℕ)
    (others : List Event → Registry api → Registry api) (ci : ClientInfo) (text : List ℕ) where
  -- A release, then the reply.
  release-reply :
      (c : ℕ) (ok : Bool) (body : List ℕ) (status_code flag : ℕ) (s : Turn api) (r : ℕ × Turn api)
      → (release api others now "tis" c ok s >>= λ s1.
          (reply api ci body status_code s1 >>= λ s2. done (flag, s2)))
        ≡ done r
      → (r.0 ≡ flag) × Adds api s r.1 (released "tis" c ok ∷ answered ci body status_code ∷ [])
  release-reply c ok body status_code flag s r h =
      let (s1, e1, h1) = >>=-eq-done (release api others now "tis" c ok s) _ h in
      let (s2, e2, h2) = >>=-eq-done (reply api ci body status_code s1) _ h1 in
      let last : (flag, s2) ≡ r = done_inj h2 in
      rw (← last) (
        refl,
        then_event api s s1 s2 (released "tis" c ok ∷ []) (answered ci body status_code)
            (release-Adds api others now "tis" c ok s s1 e1)
            (reply-Adds api ci body status_code s1 s2 e2),
      )

  join :
      (s t u : Turn api) (ev ev' : List Event)
      → Adds api s t ev
      → Adds api t u ev'
      → Adds api s u (ev ++ ev')
  join s t u ev ev' h k = k ∙ ap (λ es. es ++ ev') h ∙ append_assoc s.events ev ev'

  -- What the check of a message amounts to.
  abbrev CheckedTurn : Turn api → ℕ × Turn api → Type 0
  CheckedTurn s r = (ev : List Event) × Checked ci text r.0 ev × Adds api s r.1 ev

  after_check-Checked :
      (c : ℕ) (res : Option CheckResultStruct) (s s1 : Turn api) (r : ℕ × Turn api)
      → is_exempt ci ≡ false
      → Adds api s s1 (leased "tis" (some c) ∷ checked (tis_req ci text) res ∷ [])
      → after_check api proto now garbage others ci c res s1 ≡ done r
      → CheckedTurn s r
  unfolding after_check
  after_check-Checked c none s s1 r x a h =
      let (flag, adds) = release-reply c false [] 1001 unchecked s1 r h in
      (_, failed c x flag refl, join s s1 r.1 _ _ a adds)
  after_check-Checked c (some res) s s1 r x a h =
      elim (Bool-cases (ltb max_out_buf_len (4 + ci.len))) [
        | inl big ↦ cc (rw big at h)
        | inr fits ↦
            let (flag, adds) =
              release-reply c true (answer_body ci (flag_of res)) 0 (flag_of res) s1 r
                (rw fits at h) in
            (_, judged c res x flag (rw flag refl), join s s1 r.1 _ _ a adds)
      ]

  with_tis-Checked :
      (conn : Option ℕ) (s s1 : Turn api) (r : ℕ × Turn api)
      → is_exempt ci ≡ false
      → Adds api s s1 (leased "tis" conn ∷ [])
      → with_tis api proto now garbage others ci text conn s1 ≡ done r
      → CheckedTurn s r
  unfolding with_tis
  with_tis-Checked none s s1 r x a h =
      let (s2, e, d) = >>=-eq-done (reply api ci [] 1001 s1) _ h in
      let last : (unchecked, s2) ≡ r = done_inj d in
      rw (← last)
        (_, no_connection x refl refl, join s s1 s2 _ _ a (reply-Adds api ci [] 1001 s1 s2 e))
  with_tis-Checked (some c) s s1 r x a h =
      let (q, e, d) =
        >>=-eq-done
          (call_on api others "tis" c (Check.call proto new_check_result (tis_req ci text))
            (checked (tis_req ci text)) s1)
          _ h in
      after_check-Checked c q.0 s q.1 r x
        (join s s1 q.1 _ _ a (
          call_on-Adds api others "tis" c (Check.call proto new_check_result (tis_req ci text))
            (checked (tis_req ci text)) s1 q e))
        d

  check_message-Checked :
      (s : Turn api) (r : ℕ × Turn api)
      → check_message api proto now garbage others ci text s ≡ done r
      → CheckedTurn s r
  unfolding check_message
  check_message-Checked s r h = elim (Bool-cases (is_exempt ci)) [
    | inl x ↦
        let (s1, e, d) = >>=-eq-done (reply api ci [] 1002 s) _ (rw x at h) in
        let last : (unchecked, s1) ≡ r = done_inj d in
        rw (← last) (_, exempt x refl refl, reply-Adds api ci [] 1002 s s1 e)
    | inr x ↦
        let (q, e, d) = >>=-eq-done (lease api others "tis" s) _ (rw x at h) in
        with_tis-Checked q.0 s q.1 r x (lease-Adds api others "tis" s q e) d
  ]

  after_store-Adds :
      (c : ℕ) (code : Option ℕ) (name : List ℕ) (flag : ℕ) (s s1 t : Turn api)
      → Adds api s s1 (leased "dbser" (some c) ∷ stored (dbser_req ci text name flag) code ∷ [])
      → after_store api proto now garbage others c code s1 ≡ done t
      → (ev : List Event) × Stored ci text flag ev × Adds api s t ev
  unfolding after_store
  after_store-Adds c none name flag s s1 t a h =
      (_, lost c name refl, join s s1 t _ _ a (release-Adds api others now "dbser" c false s1 t h))
  after_store-Adds c (some code) name flag s s1 t a h = (
    _,
    kept c code name refl,
    join s s1 t _ _ a (release-Adds api others now "dbser" c true s1 t h),
  )

  with_dbser-Adds :
      (conn : Option ℕ) (flag : ℕ) (s s1 t : Turn api)
      → Adds api s s1 (leased "dbser" conn ∷ [])
      → with_dbser api proto now garbage others ci text flag conn s1 ≡ done t
      → (ev : List Event) × Stored ci text flag ev × Adds api s t ev
  unfolding with_dbser
  with_dbser-Adds none flag s s1 t a h = rw (← done_inj h) (_, no_store refl, a)
  with_dbser-Adds (some c) flag s s1 t a h =
      let (name, en, hn) = >>=-eq-done (c_string (buf_size - nick_at) nick_at ci.buf) _ h in
      let call = StoreMessage.call proto garbage (dbser_req ci text name flag) in
      let note : Option ℕ → Event = stored (dbser_req ci text name flag) in
      let (q, e, d) = >>=-eq-done (call_on api others "dbser" c call note s1) _ hn in
      after_store-Adds c q.0 name flag s q.1 t
        (join s s1 q.1 _ _ a (call_on-Adds api others "dbser" c call note s1 q e)) d

  store_message-Adds :
      (flag : ℕ) (s t : Turn api)
      → store_message api proto now garbage others ci text flag s ≡ done t
      → (ev : List Event) × Stored ci text flag ev × Adds api s t ev
  unfolding store_message
  store_message-Adds flag s t h =
      let (q, e, d) = >>=-eq-done (lease api others "dbser" s) _ h in
      with_dbser-Adds q.0 flag s q.1 t (lease-Adds api others "dbser" s q e) d

-- What a turn amounts to: the text of the message, the events up to the reply with the flag that
-- comes of them, and the events after it.
pub record Turned (api : TransportApi) (ci : ClientInfo) (s t : Turn api) : Type 0 where
  pub text : List ℕ
  pub flag : ℕ
  pub asking : List Event
  pub storing : List Event
  pub text_read : c_string (buf_size - content_at) content_at ci.buf ≡ done text
  pub was_checked : Checked ci text flag asking
  pub was_stored : Stored ci text flag storing
  pub all_events : t.events ≡ s.events ++ asking ++ storing

pub handle_tis-Turned :
    (api : TransportApi) (proto : ProtocolApi (api.Transport)) (now garbage : ℕ)
    (others : List Event → Registry api → Registry api) (ci : ClientInfo) (s t : Turn api)
    → handle_tis api proto now garbage others ci s ≡ done t
    → Turned api ci s t
unfolding handle_tis
handle_tis-Turned api proto now garbage others ci s t h =
    let (text, et, ht) = >>=-eq-done (c_string (buf_size - content_at) content_at ci.buf) _ h in
    let (r, er, hr) = >>=-eq-done (check_message api proto now garbage others ci text s) _ ht in
    let (asking, ca, aa) = check_message-Checked api proto now garbage others ci text s r er in
    let (storing, cs, as_) = store_message-Adds api proto now garbage others ci text r.0 r.1 t hr in
    record {
      text = text;
      flag = r.0;
      asking = asking;
      storing = storing;
      text_read = et;
      was_checked = ca;
      was_stored = cs;
      all_events = as_ ∙ ap (λ es. es ++ storing) aa;
    }
