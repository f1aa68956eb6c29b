-- ===== src/Thrift/Messages.antt =====
-- The round trip of all structures at once: the messages, and the arguments and results of the
-- methods that have any.
use thirft_proxy.Prelude.{ℕ, ◌≡◌, Bool, Option, some}
use thirft_proxy.Thrift.{Value, Fields}
use thirft_proxy.Thrift.Reading.{known_fields}
use thirft_proxy.Thrift.CheckResult
use thirft_proxy.Thrift.RequestCheck
use thirft_proxy.Thrift.ReqCheckResult
use thirft_proxy.Thrift.ReqProto
use thirft_proxy.Thrift.AckProto
use thirft_proxy.Thrift.TisService.Check
use thirft_proxy.Thrift.TisService.ReloadModel
use thirft_proxy.Thrift.IdentityServ.GetIdentity
use thirft_proxy.Thrift.IdentityServ.StoreMessage

pub data Kind : Type 0 where
  check_result request_check req_check_result req_proto ack_proto check_args check_reply
        reload_model_reply get_identity_args get_identity_reply store_message_args
        store_message_reply :
      Kind

abbrev pub Structure : Kind → Type 0
Structure check_result = CheckResult.CheckResultStruct
Structure request_check = RequestCheck.RequestCheckStruct
Structure req_check_result = ReqCheckResult.ReqCheckResult
Structure req_proto = ReqProto.ReqProto
Structure ack_proto = AckProto.AckProto
Structure check_args = Check.Args
Structure check_reply = Check.Result
Structure reload_model_reply = ReloadModel.Result
Structure get_identity_args = GetIdentity.Args
Structure get_identity_reply = GetIdentity.Result
Structure store_message_args = StoreMessage.Args
Structure store_message_reply = StoreMessage.Result

abbrev pub read : (k : Kind) → Fields → Structure k → Option (Structure k)
read check_result = CheckResult.read_check_result
read request_check = RequestCheck.read_request_check
read req_check_result = ReqCheckResult.read_req_check_result
read req_proto = ReqProto.read_req_proto
read ack_proto = AckProto.read_ack_proto
read check_args = Check.read_args
read check_reply = Check.read_result
read reload_model_reply = ReloadModel.read_result
read get_identity_args = GetIdentity.read_args
read get_identity_reply = GetIdentity.read_result
read store_message_args = StoreMessage.read_args
read store_message_reply = StoreMessage.read_result

abbrev pub write : (k : Kind) → Structure k → Fields
write check_result = CheckResult.write_check_result
write request_check = RequestCheck.write_request_check
write req_check_result = ReqCheckResult.write_req_check_result
write req_proto = ReqProto.write_req_proto
write ack_proto = AckProto.write_ack_proto
write check_args = Check.write_args
write check_reply = Check.write_result
write reload_model_reply = ReloadModel.write_result
write get_identity_args = GetIdentity.write_args
write get_identity_reply = GetIdentity.write_result
write store_message_args = StoreMessage.write_args
write store_message_reply = StoreMessage.write_result

abbrev pub is_field : Kind → ℕ → Value → Bool
is_field check_result = CheckResult.is_check_result_field
is_field request_check = RequestCheck.is_request_check_field
is_field req_check_result = ReqCheckResult.is_req_check_result_field
is_field req_proto = ReqProto.is_req_proto_field
is_field ack_proto = AckProto.is_ack_proto_field
is_field check_args = Check.is_args_field
is_field check_reply = Check.is_result_field
is_field reload_model_reply = ReloadModel.is_result_field
is_field get_identity_args = GetIdentity.is_args_field
is_field get_identity_reply = GetIdentity.is_result_field
is_field store_message_args = StoreMessage.is_args_field
is_field store_message_reply = StoreMessage.is_result_field

abbrev pub received : (k : Kind) → Structure k → Structure k → Structure k
received check_result = CheckResult.received_check_result
received request_check = RequestCheck.received_request_check
received req_check_result = ReqCheckResult.received_req_check_result
received req_proto = ReqProto.received_req_proto
received ack_proto = AckProto.received_ack_proto
received check_args = Check.received_args
received check_reply = Check.received_result
received reload_model_reply = ReloadModel.received_result
received get_identity_args = GetIdentity.received_args
received get_identity_reply = GetIdentity.received_result
received store_message_args = StoreMessage.received_args
received store_message_reply = StoreMessage.received_result

-- Over any old value, the generated `read` of each structure gives what its `write` was given, with
-- the fields marked as set (a result that was not set leaves the old value), from every stream that
-- has the fields that `write` sends in their order, whatever fields that the structure does not have
-- stand between, before or behind them.
pub read-write :
    (k : Kind) (fs : Fields) (s old : Structure k)
    → known_fields (is_field k) fs ≡ write k s
    → read k fs old ≡ some (received k old s)
read-write check_result = CheckResult.read_check_result-write_check_result
read-write request_check = RequestCheck.read_request_check-write_request_check
read-write req_check_result = ReqCheckResult.read_req_check_result-write_req_check_result
read-write req_proto = ReqProto.read_req_proto-write_req_proto
read-write ack_proto = AckProto.read_ack_proto-write_ack_proto
read-write check_args = Check.read_args-write_args
read-write check_reply = Check.read_result-write_result
read-write reload_model_reply = ReloadModel.read_result-write_result
read-write get_identity_args = GetIdentity.read_args-write_args
read-write get_identity_reply = GetIdentity.read_result-write_result
read-write store_message_args = StoreMessage.read_args-write_args
read-write store_message_reply = StoreMessage.read_result-write_result
