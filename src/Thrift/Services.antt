-- ===== src/Thrift/Services.antt =====
-- The processors' `dispatchCall`: the process map as a chain of tests. `none` when a read throws.
use Prim.Native.String.{String}
use text.Mathlib.Text.{◌==◌ as str_eq}
use thirft_proxy.Prelude.{ℕ, Option, some, if◌then◌else◌}
use thirft_proxy.Thrift.{Fields}
use thirft_proxy.Thrift.Client.{Message, t_exception, Answer}
use thirft_proxy.Thrift.CheckResult.{CheckResultStruct}
use thirft_proxy.Thrift.RequestCheck.{RequestCheckStruct}
use thirft_proxy.Thrift.ReqCheckResult.{ReqCheckResult}
use thirft_proxy.Thrift.ReqProto.{ReqProto}
use thirft_proxy.Thrift.AckProto.{AckProto}
use thirft_proxy.Thrift.TisService.Ping
use thirft_proxy.Thrift.TisService.Check
use thirft_proxy.Thrift.TisService.ReloadModel
use thirft_proxy.Thrift.IdentityServ.GetIdentity
use thirft_proxy.Thrift.IdentityServ.StoreMessage

-- `TisServiceIf` and `IdentityServIf`.
pub record TisServiceIf : Type 0 where
  pub ping : Unit {0} → Answer (Unit {0})
  pub reload_model : Unit {0} → Answer ℕ
  pub check : RequestCheckStruct → Answer CheckResultStruct

pub record IdentityServIf : Type 0 where
  pub get_identity : ReqProto → Answer AckProto
  pub store_message : ReqCheckResult → Answer ℕ

module _ (app_exception : String → Fields) where
  abbrev unknown_method : Message → Message
  unknown_method m = record m { message_type = t_exception; body = app_exception m.name }

  unfoldable pub dispatch_tis : TisServiceIf → Message → Option Message
  dispatch_tis iface m =
      if str_eq m.name "check"
      then Check.process iface.check app_exception m.seqid m.body
      else if str_eq m.name "ping"
      then Ping.process iface.ping app_exception m.seqid m.body
      else if str_eq m.name "reloadModel"
      then ReloadModel.process iface.reload_model app_exception m.seqid m.body
      else some (unknown_method m)

  unfoldable pub dispatch_identity : IdentityServIf → Message → Option Message
  dispatch_identity iface m =
      if str_eq m.name "GetIdentity"
      then GetIdentity.process iface.get_identity app_exception m.seqid m.body
      else if str_eq m.name "StoreMessage"
      then StoreMessage.process iface.store_message app_exception m.seqid m.body
      else some (unknown_method m)
