-- ===== src/Thrift/Remote/Identity.antt =====
-- The clients of thrift/IdentityServ.cpp against its processor.
use Prim.Native.String.{String}
use thirft_proxy.Prelude.{ℕ, ◌≡◌, refl, true, Option, some}
use thirft_proxy.Thrift.{Fields}
use thirft_proxy.Thrift.Reading.{read_fields}
use thirft_proxy.Thrift.Client.{Message, Answer, gives, throws}
use thirft_proxy.Thrift.ReqCheckResult.{
  ReqCheckResult, received_req_check_result, new_req_check_result, read_req_check_result-received,
}
use thirft_proxy.Thrift.ReqProto.{
  ReqProto, received_req_proto, new_req_proto, read_req_proto-received,
}
use thirft_proxy.Thrift.AckProto.{AckProto, received_ack_proto, read_ack_proto-received}
use thirft_proxy.Thrift.IdentityServ.GetIdentity
use thirft_proxy.Thrift.IdentityServ.StoreMessage
use thirft_proxy.Thrift.Services.{IdentityServIf, dispatch_identity}
use thirft_proxy.Thrift.Remote.{Loop, loop_api, loop_to, outcome}

module _ (app_exception : String → Fields) where
  module _ (iface : IdentityServIf) where
    abbrev pub to_identity : Loop
    to_identity = loop_to (dispatch_identity app_exception iface)

    get_identity_presult :
        (old v : AckProto)
        → GetIdentity.read_presult old (
            GetIdentity.write_result
              (record { success = v; is_set = record { success_set = true } }))
          ≡ some (received_ack_proto old v, true)
    unfolding GetIdentity.read_presult GetIdentity.write_result read_fields
    get_identity_presult old v = rw (read_ack_proto-received v old) refl

    get_identity_answered :
        (old : AckProto) (a : Answer AckProto) (serve : Message → Option Message)
        → (GetIdentity.recv loop_api old (record {
          serve = serve;
          pending = some (GetIdentity.answer (λ r. a) app_exception 0 a);
        })).0
          ≡ outcome (received_ack_proto old) a
    unfolding GetIdentity.recv
    get_identity_answered old (gives v) serve = rw (get_identity_presult old v) refl
    get_identity_answered old (throws what) serve = refl

    get_identity_args :
        (s : ReqProto)
        → GetIdentity.read_args (GetIdentity.write_pargs s) GetIdentity.new_args
          ≡ some
              (record { s = received_req_proto new_req_proto s; is_set = record { s_set = true } })
    unfolding GetIdentity.read_args GetIdentity.write_pargs
    get_identity_args s = rw (read_req_proto-received s new_req_proto) refl

    get_identity_remote :
        (old : AckProto) (s : ReqProto)
        → (GetIdentity.call loop_api old s to_identity).0
          ≡ outcome
              (received_ack_proto old)
              (iface.get_identity (received_req_proto new_req_proto s))
    unfolding GetIdentity.call GetIdentity.send dispatch_identity GetIdentity.process
    get_identity_remote old s = rw (get_identity_args s) (
        get_identity_answered old (iface.get_identity (received_req_proto new_req_proto s))
          (dispatch_identity app_exception iface))

    store_message_presult :
        (old v : ℕ)
        → StoreMessage.read_presult old (
            StoreMessage.write_result
              (record { success = v; is_set = record { success_set = true } }))
          ≡ some (v, true)
    unfolding StoreMessage.read_presult StoreMessage.write_result read_fields
    store_message_presult old v = refl

    store_message_answered :
        (old : ℕ) (a : Answer ℕ) (serve : Message → Option Message)
        → (StoreMessage.recv loop_api old (record {
          serve = serve;
          pending = some (StoreMessage.answer (λ r. a) app_exception 0 a);
        })).0
          ≡ outcome (λ v. v) a
    unfolding StoreMessage.recv
    store_message_answered old (gives v) serve = rw (store_message_presult old v) refl
    store_message_answered old (throws what) serve = refl

    store_message_args :
        (s : ReqCheckResult)
        → StoreMessage.read_args (StoreMessage.write_pargs s) StoreMessage.new_args
          ≡ some (record {
            s = received_req_check_result new_req_check_result s;
            is_set = record { s_set = true };
          })
    unfolding StoreMessage.read_args StoreMessage.write_pargs
    store_message_args s = rw (read_req_check_result-received s new_req_check_result) refl

    store_message_remote :
        (old : ℕ) (s : ReqCheckResult)
        → (StoreMessage.call loop_api old s to_identity).0
          ≡ outcome
              (λ v. v)
              (iface.store_message (received_req_check_result new_req_check_result s))
    unfolding StoreMessage.call StoreMessage.send dispatch_identity StoreMessage.process
    store_message_remote old s = rw (store_message_args s) (
        store_message_answered old
          (iface.store_message (received_req_check_result new_req_check_result s))
          (dispatch_identity app_exception iface))

    -- The same of the storing service.
    pub identity_remote :
        (old : AckProto) (s : ReqProto) (old_code : ℕ) (message : ReqCheckResult)
        → ((GetIdentity.call loop_api old s to_identity).0
            ≡ outcome
                (received_ack_proto old)
                (iface.get_identity (received_req_proto new_req_proto s)))
          × ((StoreMessage.call loop_api old_code message to_identity).0
              ≡ outcome
                  (λ v. v)
                  (iface.store_message (received_req_check_result new_req_check_result message)))
    identity_remote old s old_code message =
        (get_identity_remote old s, store_message_remote old_code message)
