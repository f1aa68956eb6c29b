-- ===== src/Tests/Messages.antt =====
-- thrift/: a message of concrete fields, read from a stream with fields that it does not have, and
-- calls of services that answer.
use Prim.Native.String.{String}
use thirft_proxy.Prelude.{ℕ, ◌≡◌, refl, some, [], ◌∷◌, if◌then◌else◌, ◌==◌}
use thirft_proxy.Thrift.{Fields, field, other, stop, i32, string}
use thirft_proxy.Thrift.Reading.{known_fields}
use thirft_proxy.Thrift.Client.{gives, throws}
use thirft_proxy.Thrift.CheckResult.{
  CheckResultStruct, new_check_result, write_check_result, received_check_result,
}
use thirft_proxy.Thrift.RequestCheck.{RequestCheckStruct, new_request_check, received_request_check}
use thirft_proxy.Thrift.ReqCheckResult.{new_req_check_result, received_req_check_result}
use thirft_proxy.Thrift.ReqProto.{new_req_proto, received_req_proto}
use thirft_proxy.Thrift.AckProto.{new_ack_proto, received_ack_proto}
use thirft_proxy.Thrift.TisService.Ping
use thirft_proxy.Thrift.TisService.Check
use thirft_proxy.Thrift.TisService.ReloadModel
use thirft_proxy.Thrift.IdentityServ.GetIdentity
use thirft_proxy.Thrift.IdentityServ.StoreMessage
use thirft_proxy.Thrift.Messages.{check_result, is_field, read, write, received, read-write}
use thirft_proxy.Thrift.Services.{TisServiceIf, IdentityServIf, dispatch_tis, dispatch_identity}
use thirft_proxy.Thrift.Remote.{loop_api, loop_to, outcome}
use thirft_proxy.Thrift.Remote.Tis.{tis_remote}
use thirft_proxy.Thrift.Remote.Identity.{identity_remote}

abbrev judgement : CheckResultStruct
judgement = record new_check_result { action = 1; label = 12; detail = 105 ∷ [] }

-- With a field of an unknown number and one of a wrong type in front.
abbrev stream : Fields
unfolding write_check_result
stream = field 99 (i32 1) (field 1 other (write_check_result judgement))

stream_known : known_fields (is_field check_result) stream ≡ write check_result judgement
unfolding known_fields write_check_result
stream_known = refl

read-write_example :
    read check_result stream new_check_result
    ≡ some (received check_result new_check_result judgement)
read-write_example = read-write check_result stream judgement new_check_result stream_known

-- A filter that fails on the game 7, and a store.
abbrev filter : TisServiceIf
filter = record {
  ping = λ u. gives tt;
  reload_model = λ u. gives 3;
  check = λ req. if req.gameid == 7 then throws "game" else gives judgement;
}

abbrev store : IdentityServIf
store = record { get_identity = λ s. gives new_ack_proto; store_message = λ s. throws "disk" }

abbrev text_field : String → Fields
text_field what = field 1 (string []) stop

abbrev question : RequestCheckStruct
question = record new_request_check { gameid = 7 }

tis_remote_example :
    ((Check.call loop_api new_check_result question (loop_to (dispatch_tis text_field filter))).0
      ≡ outcome
          (received_check_result new_check_result)
          (filter.check (received_request_check new_request_check question)))
    × ((ReloadModel.call loop_api 0 tt (loop_to (dispatch_tis text_field filter))).0
        ≡ outcome {B = ℕ} (λ v. v) (gives 3))
    × ((Ping.call loop_api (loop_to (dispatch_tis text_field filter))).0
        ≡ outcome {B = Unit {0}} (λ v. v) (gives tt))
tis_remote_example = tis_remote text_field filter new_check_result question 0

identity_remote_example :
    ((GetIdentity.call loop_api new_ack_proto new_req_proto
        (loop_to (dispatch_identity text_field store))).0
      ≡ outcome
          (received_ack_proto new_ack_proto)
          (store.get_identity (received_req_proto new_req_proto new_req_proto)))
    × ((StoreMessage.call loop_api 0 new_req_check_result
          (loop_to (dispatch_identity text_field store))).0
        ≡ outcome {B = ℕ}
            (λ v. v)
            (store.store_message
              (received_req_check_result new_req_check_result new_req_check_result)))
identity_remote_example =
    identity_remote text_field store new_ack_proto new_req_proto 0 new_req_check_result
