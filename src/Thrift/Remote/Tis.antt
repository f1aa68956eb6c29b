-- ===== src/Thrift/Remote/Tis.antt =====
-- The clients of thrift/TisService.cpp against its processor.
use Prim.Native.String.{String}
use thirft_proxy.Prelude.{ℕ, ◌≡◌, refl, true, Option, some}
use thirft_proxy.Thrift.{Fields}
use thirft_proxy.Thrift.Reading.{read_fields}
use thirft_proxy.Thrift.Client.{Message, Answer, gives, throws}
use thirft_proxy.Thrift.CheckResult.{
  CheckResultStruct, received_check_result, read_check_result-received,
}
use thirft_proxy.Thrift.RequestCheck.{
  RequestCheckStruct, received_request_check, new_request_check, read_request_check-received,
}
use thirft_proxy.Thrift.TisService.Ping
use thirft_proxy.Thrift.TisService.Check
use thirft_proxy.Thrift.TisService.ReloadModel
use thirft_proxy.Thrift.Services.{TisServiceIf, dispatch_tis}
use thirft_proxy.Thrift.Remote.{Loop, loop_api, loop_to, outcome}

module _ (app_exception : String → Fields) where
  module _ (iface : TisServiceIf) where
    abbrev pub to_tis : Loop
    to_tis = loop_to (dispatch_tis app_exception iface)

    check_presult :
        (old v : CheckResultStruct)
        → Check.read_presult old
            (Check.write_result (record { success = v; is_set = record { success_set = true } }))
          ≡ some (received_check_result old v, true)
    unfolding Check.read_presult Check.write_result read_fields
    check_presult old v = rw (read_check_result-received v old) refl

    check_answered :
        (old : CheckResultStruct) (a : Answer CheckResultStruct) (serve : Message → Option Message)
        → (Check.recv loop_api old
            (record { serve = serve; pending = some (Check.answer (λ r. a) app_exception 0 a) })).0
          ≡ outcome (received_check_result old) a
    unfolding Check.recv
    check_answered old (gives v) serve = rw (check_presult old v) refl
    check_answered old (throws what) serve = refl

    check_args :
        (req : RequestCheckStruct)
        → Check.read_args (Check.write_pargs req) Check.new_args
          ≡ some (record {
            req = received_request_check new_request_check req;
            is_set = record { req_set = true };
          })
    unfolding Check.read_args Check.write_pargs
    check_args req = rw (read_request_check-received req new_request_check) refl

    check_remote :
        (old : CheckResultStruct) (req : RequestCheckStruct)
        → (Check.call loop_api old req to_tis).0
          ≡ outcome
              (received_check_result old)
              (iface.check (received_request_check new_request_check req))
    unfolding Check.call Check.send dispatch_tis Check.process
    check_remote old req = rw (check_args req) (
        check_answered old (iface.check (received_request_check new_request_check req))
          (dispatch_tis app_exception iface))

    reload_model_presult :
        (old v : ℕ)
        → ReloadModel.read_presult old (
            ReloadModel.write_result
              (record { success = v; is_set = record { success_set = true } }))
          ≡ some (v, true)
    unfolding ReloadModel.read_presult ReloadModel.write_result read_fields
    reload_model_presult old v = refl

    reload_model_answered :
        (old : ℕ) (a : Answer ℕ) (serve : Message → Option Message)
        → (ReloadModel.recv loop_api old (record {
          serve = serve;
          pending = some (ReloadModel.answer (λ r. a) app_exception 0 a);
        })).0
          ≡ outcome (λ v. v) a
    unfolding ReloadModel.recv
    reload_model_answered old (gives v) serve = rw (reload_model_presult old v) refl
    reload_model_answered old (throws what) serve = refl

    reload_model_remote :
        (old : ℕ)
        → (ReloadModel.call loop_api old tt to_tis).0 ≡ outcome (λ v. v) (iface.reload_model tt)
    unfolding ReloadModel.call ReloadModel.send dispatch_tis ReloadModel.process
    reload_model_remote old =
        (reload_model_answered old (iface.reload_model tt) (dispatch_tis app_exception iface))

    ping_answered :
        (a : Answer (Unit {0})) (serve : Message → Option Message)
        → (Ping.recv loop_api
            (record { serve = serve; pending = some (Ping.answer (λ r. a) app_exception 0 a) })).0
          ≡ outcome (λ v. v) a
    unfolding Ping.recv Ping.read_presult
    ping_answered (gives v) serve = refl
    ping_answered (throws what) serve = refl

    ping_remote : (Ping.call loop_api to_tis).0 ≡ outcome (λ v. v) (iface.ping tt)
    unfolding Ping.call Ping.send dispatch_tis Ping.process
    ping_remote = (ping_answered (iface.ping tt) (dispatch_tis app_exception iface))

    -- A client of the filter service that is connected to the processor gets what the service's own
    -- code gives for the arguments, with the fields that were sent marked as set, and throws exactly
    -- when that code throws.
    pub tis_remote :
        (old : CheckResultStruct) (req : RequestCheckStruct) (old_code : ℕ)
        → ((Check.call loop_api old req to_tis).0
            ≡ outcome
                (received_check_result old)
                (iface.check (received_request_check new_request_check req)))
          × ((ReloadModel.call loop_api old_code tt to_tis).0
              ≡ outcome (λ v. v) (iface.reload_model tt))
          × ((Ping.call loop_api to_tis).0 ≡ outcome (λ v. v) (iface.ping tt))
    tis_remote old req old_code = (check_remote old req, reload_model_remote old_code, ping_remote)
