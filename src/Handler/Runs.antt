-- ===== src/Handler/Runs.antt =====
-- A worker's turn for a client that `ProcPkgCli` accepted ends, without undefined behaviour.
use Prim.Native.String.{String}
use text.Mathlib.Text.{◌==◌ as str_eq}
use thirft_proxy.Prelude.{
  Outcome, done, ◌>>=◌, ℕ, zero, suc, ◌+◌, ◌≤◌, ◌<◌, ◌≡◌, refl, sym, subst, ap, Bool, true, false,
  Option, none, some, List, [], length, length-append, ltb, ◌==◌, Bool-cases, inl, inr, arith,
}
use thirft_proxy.Connection.{TransportApi}
use thirft_proxy.ConnectionPool.Registry.{Registry}
use thirft_proxy.ClientInfo.{ClientInfo}
use thirft_proxy.Proto.{header_size, write_le}
use thirft_proxy.Proxy.{buf_size}
use thirft_proxy.Proxy.Send.{out_buf_size, send_to_client_body}
use thirft_proxy.Thrift.Client.{ProtocolApi}
use thirft_proxy.Thrift.CheckResult.{CheckResultStruct, new_check_result}
use thirft_proxy.Thrift.TisService.Check
use thirft_proxy.Handler.Text.{slice}
use thirft_proxy.Handler.Steps.{
  Event, leased, released, checked, Turn, noted, lease, release, reply, call_on, found_pools,
}
use thirft_proxy.Handler.{
  game_id, is_exempt, flag_of, answer_body, max_out_buf_len, tis_req, after_check, with_tis,
  check_message,
}
use thirft_proxy.Handler.Trace.{answered}
use thirft_proxy.Handler.Total.{
  HasPool, HasReady, HasReady-SameElse, HasReady-less, lease_total, release_total, transport_total,
}

length-slice : (n off : ℕ) (buf : ℕ → ℕ) → length (slice n off buf) ≡ n
unfolding slice
length-slice zero off buf = refl
length-slice (suc n) off buf = ap suc (length-slice n (off + 1) buf)

length-answer_body : (ci : ClientInfo) (flag : ℕ) → length (answer_body ci flag) ≤ 4 + ci.len
unfolding write_le
length-answer_body ci flag = elim (Bool-cases (game_id ci == 5)) [
  | inl h ↦ rw h (
      omega (
        arith,
        length-append (write_le 4 flag) (slice ci.len 0 ci.buf),
        length-slice ci.len 0 ci.buf,
      ))
  | inr h ↦ rw h (omega arith)
]

-- What the other threads' steps keep: that the pools are there with all their connections, and that
-- between two steps of this thread a pool's counter is incremented at most `b` times.
pub record IsFair (api : TransportApi) (b : ℕ) (others : List Event → Registry api → Registry api)
    : Type 0 where
  pub keeps :
      (ev : List Event) (name : String) (n : ℕ) (m : Registry api)
      → HasPool api name n m
      → HasPool api name n (others ev m)
  pub keeps_ready :
      (ev : List Event) (name : String) (n room : ℕ) (m : Registry api)
      → HasReady api name n (room + b) m
      → HasReady api name n room (others ev m)

pub reply_total :
    (api : TransportApi) (ci : ClientInfo) (body : List ℕ) (status_code : ℕ) (s : Turn api)
    → header_size + length body ≤ out_buf_size
    → (t : Turn api) × (reply api ci body status_code s ≡ done t) × (t.pools ≡ s.pools)
unfolding reply send_to_client_body
reply_total api ci body status_code s h =
    let fits : ltb out_buf_size (header_size + length body) ≡ false = ground arith in
    (noted api (answered ci body status_code) s, rw fits refl, refl)

module _ (api : TransportApi) (proto : ProtocolApi (api.Transport)) (now garbage : ℕ)
    (others : List Event → Registry api → Registry api) (b : ℕ) (fair : IsFair api b others)
    (n k : ℕ) (pos : 0 < n) where
  -- The pools that a turn needs while it holds a connection of the filter service.
  pub record Holding (room : ℕ) (m : Registry api) : Type 0 where
    pub tis : HasPool api "tis" n m
    pub dbser : HasReady api "dbser" k room m

  abbrev Ends : ℕ → Outcome (Turn api) → Type 0
  Ends room r = (t : Turn api) × (r ≡ done t) × Holding room t.pools

  found_Holding :
      (room : ℕ) (s : Turn api)
      → Holding (room + b) s.pools
      → Holding room (found_pools api others s)
  found_Holding room s v = record {
    tis = fair.keeps s.events "tis" n s.pools v.tis;
    dbser = fair.keeps_ready s.events "dbser" k room s.pools v.dbser;
  }

  tis-dbser : str_eq "tis" "dbser" ≡ false
  tis-dbser = refl

  release_tis :
      (room c : ℕ) (ok : Bool) (s : Turn api)
      → c < n
      → Holding (room + b) s.pools
      → Ends room (release api others now "tis" c ok s)
  unfolding release
  release_tis room c ok s lt v =
      let w = found_Holding room s v in
      let (m, e, has, same) =
        release_total api now "tis" c ok n (found_pools api others s) w.tis lt in
      (
        noted api (released "tis" c ok) (record s { pools = m }),
        rw e refl,
        record {
          tis = has;
          dbser =
              HasReady-SameElse api "tis" "dbser" k room (found_pools api others s) m tis-dbser same
                w.dbser;
        },
      )

  call_tis :
      {A : Type 0} (room c : ℕ) (f : api.Transport → Option A × api.Transport)
      (note : Option A → Event) (s : Turn api)
      → c < n
      → Holding (room + b) s.pools
      → (r : Option A × Turn api) × (call_on api others "tis" c f note s ≡ done r)
        × Holding room r.1.pools
  unfolding call_on
  call_tis room c f note s lt v =
      let w = found_Holding room s v in
      let (a, m, e, has, same) =
        transport_total api "tis" c f n (found_pools api others s) w.tis lt in
      (
        (a, noted api (note a) (record s { pools = m })),
        rw e refl,
        record {
          tis = has;
          dbser =
              HasReady-SameElse api "tis" "dbser" k room (found_pools api others s) m tis-dbser same
                w.dbser;
        },
      )

  -- The check of a message, and its reply.
  abbrev Checks : ℕ → Outcome (ℕ × Turn api) → Type 0
  Checks room r = (q : ℕ × Turn api) × (r ≡ done q) × HasReady api "dbser" k room q.1.pools

  release-reply_total :
      (room : ℕ) (ci : ClientInfo) (c : ℕ) (ok : Bool) (body : List ℕ) (status_code flag : ℕ)
      (s : Turn api)
      → c < n
      → Holding (room + b) s.pools
      → header_size + length body ≤ out_buf_size
      → Checks room (
          release api others now "tis" c ok s >>= λ s1.
          (reply api ci body status_code s1 >>= λ s2. done (flag, s2)))
  release-reply_total room ci c ok body status_code flag s lt v fits =
      let (s1, e1, v1) = release_tis room c ok s lt v in
      let (s2, e2, same) = reply_total api ci body status_code s1 fits in
      ((flag, s2), rw (e1, e2) refl, subst (HasReady api "dbser" k room) (sym same) v1.dbser)

  after_check_total :
      (room : ℕ) (ci : ClientInfo) (c : ℕ) (res : Option CheckResultStruct) (s : Turn api)
      → ci.len ≤ buf_size
      → c < n
      → Holding (room + b) s.pools
      → Checks room (after_check api proto now garbage others ci c res s)
  unfolding after_check
  after_check_total room ci c none s len lt v =
      release-reply_total room ci c false [] 1001 2 s lt v (omega arith)
  after_check_total room ci c (some res) s len lt v =
      let fits : ltb max_out_buf_len (4 + ci.len) ≡ false = ground arith in
      rw fits (
        release-reply_total room ci c true (answer_body ci (flag_of res)) 0 (flag_of res) s lt v
          (omega (arith, length-answer_body ci (flag_of res), len)))

  reply-Checks :
      (room more : ℕ) (ci : ClientInfo) (status_code flag : ℕ) (s : Turn api)
      → room ≤ more
      → HasReady api "dbser" k more s.pools
      → Checks room (reply api ci [] status_code s >>= λ s1. done (flag, s1))
  reply-Checks room more ci status_code flag s le v =
      let (s1, e, same) = reply_total api ci [] status_code s (omega arith) in
      (
        (flag, s1),
        rw e refl,
        subst (HasReady api "dbser" k room) (sym same)
            (HasReady-less api "dbser" k more room s.pools le v),
      )

  with_tis_total :
      (room : ℕ) (ci : ClientInfo) (text : List ℕ) (conn : Option ℕ) (s : Turn api)
      → ci.len ≤ buf_size
      → ((c : ℕ) → conn ≡ some c → c < n)
      → Holding (room + b + b) s.pools
      → Checks room (with_tis api proto now garbage others ci text conn s)
  unfolding with_tis
  with_tis_total room ci text none s len lt v =
      reply-Checks room (room + b + b) ci 1001 2 s (omega arith) v.dbser
  with_tis_total room ci text (some c) s len lt v =
      let call = Check.call proto new_check_result (tis_req ci text) in
      let (q, e, w) = call_tis (room + b) c call (checked (tis_req ci text)) s (lt c refl) v in
      rw e (after_check_total room ci c q.0 q.1 len (lt c refl) w)

  pub check_message_total :
      (room : ℕ) (ci : ClientInfo) (text : List ℕ) (s : Turn api)
      → ci.len ≤ buf_size
      → HasReady api "tis" n (1 + b) s.pools
      → HasReady api "dbser" k (room + b + b + b) s.pools
      → Checks room (check_message api proto now garbage others ci text s)
  unfolding check_message lease
  check_message_total room ci text s len t d = elim (Bool-cases (is_exempt ci)) [
    | inl x ↦ rw x (reply-Checks room (room + b + b + b) ci 1002 2 s (omega arith) d)
    | inr x ↦
        let m = found_pools api others s in
        let t' = fair.keeps_ready s.events "tis" n 1 s.pools t in
        let d' = fair.keeps_ready s.events "dbser" k (room + b + b) s.pools d in
        let l = lease_total api "tis" n m pos t' in
        let s1 = noted api (leased "tis" l.conn) (record s { pools = l.pools }) in
        let v : Holding (room + b + b) s1.pools = record {
          tis = l.has;
          dbser =
              HasReady-SameElse api "tis" "dbser" k (room + b + b) m l.pools tis-dbser l.same d';
        } in
        rw (x, l.runs) (with_tis_total room ci text l.conn s1 len l.place v)
  ]
