-- ===== src/Handler.antt =====
-- handler/tis_proto_handler.cpp and handler/default_proto_handler.h: what a worker does for a client.
-- The pools are the map of ConnectionPool/Registry. Between any two of the handler's calls of it the
-- other threads may change it: `others` says how, and may depend on all that the handler did so far.
-- `fault` is undefined behaviour, of the pools or of the handler.
pub mod Text
pub mod Steps
pub mod Trace
pub mod Order
pub mod Balance
pub mod Total
pub mod Runs
pub mod Finish
use Prim.Native.String.{String}
use thirft_proxy.Prelude.{
  Outcome, done, fault, ◌>>=◌, ℕ, ◌+◌, ◌-◌, Bool, true, false, ◌&&◌, Option, none, some, List, [],
  ◌∷◌, ◌++◌, ◌==◌, ltb, if◌then◌else◌,
}
use thirft_proxy.Connection.{TransportApi}
use thirft_proxy.ClientInfo.{ClientInfo}
use thirft_proxy.CmdHandler.{Func, tis_proto_handler, default_proto_handler}
use thirft_proxy.Proto.{read_le, write_le}
use thirft_proxy.Proxy.{buf_size}
use thirft_proxy.Thrift.Client.{ProtocolApi}
use thirft_proxy.Thrift.CheckResult.{CheckResultStruct, new_check_result}
use thirft_proxy.Thrift.RequestCheck.{RequestCheckStruct, new_request_check}
use thirft_proxy.Thrift.ReqCheckResult.{ReqCheckResult, new_req_check_result}
use thirft_proxy.Thrift.TisService.Check
use thirft_proxy.Thrift.IdentityServ.StoreMessage
use thirft_proxy.ConnectionPool.Registry.{Registry}
use thirft_proxy.Handler.Text.{c_string, decimal, slice}
use thirft_proxy.Handler.Steps.{Turn, Event, checked, stored, lease, release, reply, call_on}

-- `DataBodyHuaXian` at the front of the body, and `ContentBody` behind it.
abbrev pub game_id : ClientInfo → ℕ
game_id ci = read_le 4 0 ci.buf

abbrev pub data_type : ClientInfo → ℕ
data_type ci = ci.buf 20

abbrev pub home_id : ClientInfo → ℕ
home_id ci = read_le 4 21 ci.buf

abbrev pub role_grade : ClientInfo → ℕ
role_grade ci = read_le 4 25 ci.buf

abbrev pub vip_grade : ClientInfo → ℕ
vip_grade ci = read_le 4 29 ci.buf

abbrev pub nick_at : ℕ
nick_at = 4

abbrev pub content_at : ℕ
content_at = 37

-- "8888" and "0.0.0.0".
abbrev pub data_id : List ℕ
data_id = b'8' ∷ b'8' ∷ b'8' ∷ b'8' ∷ []

abbrev pub any_ip : List ℕ
any_ip = b'0' ∷ b'.' ∷ b'0' ∷ b'.' ∷ b'0' ∷ b'.' ∷ b'0' ∷ []

abbrev pub tis_req : ClientInfo → List ℕ → RequestCheckStruct
tis_req ci text = record new_request_check {
  appid = 1;
  gameid = game_id ci;
  dataid = data_id;
  userid = decimal ci.userid;
  content = text;
  ip = any_ip;
}

abbrev pub dbser_req : ClientInfo → List ℕ → List ℕ → ℕ → ReqCheckResult
dbser_req ci text name dirty_flag = record new_req_check_result {
  message = text;
  flag = dirty_flag;
  appid = 1;
  gameid = game_id ci;
  type = data_type ci;
  serverid = home_id ci;
  userid = ci.userid;
  rolegrade = role_grade ci;
  vipgrade = vip_grade ci;
  nick = name;
}

-- Messages of type 4 of the game 5 are stored without a check.
abbrev pub is_exempt : ClientInfo → Bool
is_exempt ci = (data_type ci == 4) && (game_id ci == 5)

abbrev pub unchecked : ℕ
unchecked = 2

abbrev pub flag_of : CheckResultStruct → ℕ
flag_of res = if res.code == 0 then res.action else unchecked

-- The game 5 gets its own message back behind the flag.
abbrev pub answer_body : ClientInfo → ℕ → List ℕ
answer_body ci dirty_flag =
    if game_id ci == 5
    then write_le 4 dirty_flag ++ slice ci.len 0 ci.buf
    else write_le 4 dirty_flag

abbrev pub max_out_buf_len : ℕ
max_out_buf_len = 8192

module _ (api : TransportApi) (proto : ProtocolApi (api.Transport)) (now garbage : ℕ)
    (others : List Event → Registry api → Registry api) where
  -- The rest of the `try` block, or the `catch` block.
  unfoldable pub after_check :
      ClientInfo → ℕ → Option CheckResultStruct → Turn api → Outcome (ℕ × Turn api)
  after_check ci c none s = release api others now "tis" c false s >>= λ s1.
      (reply api ci [] 1001 s1 >>= λ s2. done (unchecked, s2))
  after_check ci c (some res) s =
      let flag = flag_of res in
      if ltb max_out_buf_len (4 + ci.len)
      then fault
      else (release api others now "tis" c true s >>= λ s1.
          (reply api ci (answer_body ci flag) 0 s1 >>= λ s2. done (flag, s2)))

  unfoldable pub with_tis : ClientInfo → List ℕ → Option ℕ → Turn api → Outcome (ℕ × Turn api)
  unfolding after_check
  with_tis ci text none s = reply api ci [] 1001 s >>= λ s1. done (unchecked, s1)
  with_tis ci text (some c) s =
      call_on api others "tis" c (Check.call proto new_check_result (tis_req ci text))
        (checked (tis_req ci text)) s
      >>= λ r. after_check ci c r.0 r.1

  -- The `do` block: the flag that the message gets.
  unfoldable pub check_message : ClientInfo → List ℕ → Turn api → Outcome (ℕ × Turn api)
  unfolding with_tis
  check_message ci text s =
      if is_exempt ci
      then (reply api ci [] 1002 s >>= λ s1. done (unchecked, s1))
      else (lease api others "tis" s >>= λ r. with_tis ci text r.0 r.1)

  -- The second `try` block and its `catch`; what `StoreMessage` returns is not looked at.
  unfoldable pub after_store : ℕ → Option ℕ → Turn api → Outcome (Turn api)
  after_store c none s = release api others now "dbser" c false s
  after_store c (some code) s = release api others now "dbser" c true s

  unfoldable pub with_dbser : ClientInfo → List ℕ → ℕ → Option ℕ → Turn api → Outcome (Turn api)
  unfolding after_store
  with_dbser ci text dirty_flag none s = done s
  with_dbser ci text dirty_flag (some c) s =
      c_string (buf_size - nick_at) nick_at ci.buf >>= λ name.
      (call_on api others "dbser" c
          (StoreMessage.call proto garbage (dbser_req ci text name dirty_flag))
          (stored (dbser_req ci text name dirty_flag)) s
        >>= λ r. after_store c r.0 r.1)

  unfoldable pub store_message : ClientInfo → List ℕ → ℕ → Turn api → Outcome (Turn api)
  unfolding with_dbser
  store_message ci text dirty_flag s =
      lease api others "dbser" s >>= λ r. with_dbser ci text dirty_flag r.0 r.1

  -- `tisProtoHandler`.
  unfoldable pub handle_tis : ClientInfo → Turn api → Outcome (Turn api)
  unfolding check_message store_message
  handle_tis ci s = c_string (buf_size - content_at) content_at ci.buf >>= λ text.
      (check_message ci text s >>= λ r. store_message ci text r.0 r.1)

  -- `defaultProtoHandler`.
  unfoldable pub handle_default : ClientInfo → Turn api → Outcome (Turn api)
  handle_default ci s = reply api ci [] 1001 s

  abbrev pub handle : Option Func → ClientInfo → Turn api → Outcome (Turn api)
  handle none ci s = fault
  handle (some tis_proto_handler) ci s = handle_tis ci s
  handle (some default_proto_handler) ci s = handle_default ci s

  -- `ClientInfo::run`: calling an empty `boost::function` throws what nobody catches.
  unfoldable pub run : ClientInfo → Turn api → Outcome (Turn api)
  unfolding handle_tis handle_default
  run ci s = handle ci.call_back_func ci s
