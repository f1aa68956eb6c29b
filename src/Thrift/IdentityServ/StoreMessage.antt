-- ===== src/Thrift/IdentityServ/StoreMessage.antt =====
-- thrift/IdentityServ.cpp: the method `StoreMessage`: its arguments and its result, the client and the processor.
use Prim.Native.String.{String}
use thirft_proxy.Prelude.{
  ℕ, ◌≡◌, refl, ap, ◌∙◌, Bool, true, false, Option, some, ◌==◌, if◌then◌else◌, Bool-cases, inl, inr,
  arith,
}
use thirft_proxy.Thrift.{
  Value, i32, byte, string, struct, other, Fields, stop, field, on_i32, on_struct, fill,
}
use thirft_proxy.Thrift.Reading.{read_fields, known_fields, read_fields-known_fields}
use thirft_proxy.Thrift.Client.{
  ProtocolApi, Call, ◌>>=◌, send_call, receive, Message, t_reply, t_exception, Answer, gives,
  throws,
}
use thirft_proxy.Thrift.ReqCheckResult.{
  ReqCheckResult, read_req_check_result, write_req_check_result, received_req_check_result,
  read_req_check_result-received, new_req_check_result,
}

-- `IdentityServ_StoreMessage_args`: `__isset`, and the fields.
pub record ArgsIsSet : Type 0 where
  pub s_set : Bool

pub record Args : Type 0 where
  pub s : ReqCheckResult
  pub is_set : ArgsIsSet

-- One round of the loop of `read`: the field goes where its number and its type say, or is skipped.
unfoldable pub read_args_field : ℕ → Value → Args → Option Args
read_args_field fid value s =
    if fid == 1
    then on_struct value
        (λ fs.
          fill
            (λ (v : ReqCheckResult). record s { s = v; is_set = record s.is_set { s_set = true } })
            (read_req_check_result fs s.s))
        (some s)
    else some s

-- `read`: `none` when a read throws.
unfoldable pub read_args : Fields → Args → Option Args
unfolding read_fields read_args_field
read_args fs s = read_fields read_args_field fs s

unfoldable pub write_args : Args → Fields
write_args s = field 1 (struct (write_req_check_result s.s)) stop

-- A field that the structure has, by its number and its type.
abbrev pub is_args_field : ℕ → Value → Bool
is_args_field fid value = if fid == 1 then on_struct value (λ v. true) false else false

-- What a reader that held `old` has once `s` was written and read.
abbrev pub received_args : Args → Args → Args
received_args old s = record s {
  s = received_req_check_result old.s s.s;
  is_set = record { s_set = true };
}

args_field-skipped :
    (fid : ℕ) (value : Value) (s : Args)
    → is_args_field fid value ≡ false
    → read_args_field fid value s ≡ some s
unfolding read_args_field
args_field-skipped fid (i32 x) s h = ground (arith, h)
args_field-skipped fid (byte x) s h = ground (arith, h)
args_field-skipped fid (string x) s h = ground (arith, h)
args_field-skipped fid (struct x) s h = ground (arith, h)
args_field-skipped fid other s h = ground (arith, h)

pub read_args-received : (s old : Args) → read_args (write_args s) old ≡ some (received_args old s)
unfolding read_args write_args
read_args-received s old = rw (read_req_check_result-received s.s old.s) refl

-- Over any old value, `read` gives what `write` was given, from every stream that has the fields
-- that `write` sends in their order, whatever other fields stand between, before or behind them.
pub read_args-write_args :
    (fs : Fields) (s old : Args)
    → known_fields is_args_field fs ≡ write_args s
    → read_args fs old ≡ some (received_args old s)
unfolding read_args
read_args-write_args fs s old h =
    read_fields-known_fields read_args_field is_args_field args_field-skipped fs old
    ∙ ap (λ k. read_args k old) h
    ∙ read_args-received s old

abbrev pub new_args : Args
new_args = record { s = new_req_check_result; is_set = record { s_set = false } }

-- `IdentityServ_StoreMessage_pargs`, which points to the argument.
unfoldable pub write_pargs : ReqCheckResult → Fields
write_pargs s = field 1 (struct (write_req_check_result s)) stop

-- `IdentityServ_StoreMessage_result`: `__isset`, and the fields.
pub record ResultIsSet : Type 0 where
  pub success_set : Bool

pub record Result : Type 0 where
  pub success : ℕ
  pub is_set : ResultIsSet

-- One round of the loop of `read`: the field goes where its number and its type say, or is skipped.
unfoldable pub read_result_field : ℕ → Value → Result → Option Result
read_result_field fid value s =
    if fid == 0
    then on_i32 value
        (λ v. some (record s { success = v; is_set = record s.is_set { success_set = true } }))
        (some s)
    else some s

-- `read`: `none` when a read throws.
unfoldable pub read_result : Fields → Result → Option Result
unfolding read_fields read_result_field
read_result fs s = read_fields read_result_field fs s

unfoldable pub write_result : Result → Fields
write_result s = if s.is_set.success_set then field 0 (i32 s.success) stop else stop

-- A field that the structure has, by its number and its type.
abbrev pub is_result_field : ℕ → Value → Bool
is_result_field fid value = if fid == 0 then on_i32 value (λ v. true) false else false

-- What a reader that held `old` has once `s` was written and read.
abbrev pub received_result : Result → Result → Result
received_result old s =
    if s.is_set.success_set then record s { is_set = record { success_set = true } } else old

result_field-skipped :
    (fid : ℕ) (value : Value) (s : Result)
    → is_result_field fid value ≡ false
    → read_result_field fid value s ≡ some s
unfolding read_result_field
result_field-skipped fid (i32 x) s h = ground (arith, h)
result_field-skipped fid (byte x) s h = ground (arith, h)
result_field-skipped fid (string x) s h = ground (arith, h)
result_field-skipped fid (struct x) s h = ground (arith, h)
result_field-skipped fid other s h = ground (arith, h)

pub read_result-received :
    (s old : Result) → read_result (write_result s) old ≡ some (received_result old s)
unfolding read_result write_result
read_result-received s old = elim (Bool-cases s.is_set.success_set) [
  | inl h ↦ rw h (refl)
  | inr h ↦ rw h refl
]

-- Over any old value, `read` gives what `write` was given, from every stream that has the fields
-- that `write` sends in their order, whatever other fields stand between, before or behind them.
pub read_result-write_result :
    (fs : Fields) (s old : Result)
    → known_fields is_result_field fs ≡ write_result s
    → read_result fs old ≡ some (received_result old s)
unfolding read_result
read_result-write_result fs s old h =
    read_fields-known_fields read_result_field is_result_field result_field-skipped fs old
    ∙ ap (λ k. read_result k old) h
    ∙ read_result-received s old

abbrev pub new_result : Result
new_result = record { success = 0; is_set = record { success_set = false } }

-- `IdentityServ_StoreMessage_presult`: `_return`, and whether it was set.
unfoldable pub read_presult_field : ℕ → Value → ℕ × Bool → Option (ℕ × Bool)
read_presult_field fid value s =
    if fid == 0 then on_i32 value (λ v. some (v, true)) (some s) else some s

unfoldable pub read_presult : ℕ → Fields → Option (ℕ × Bool)
unfolding read_fields read_presult_field
read_presult value fs = read_fields read_presult_field fs (value, false)

module _ {T : Type 0} (api : ProtocolApi T) where
  unfoldable pub send : ReqCheckResult → Call T (Unit {0})
  unfolding send_call
  send s = send_call api "StoreMessage" (write_pargs s)

  -- `value` is what `_return` holds before.
  unfoldable pub recv : ℕ → Call T ℕ
  unfolding receive
  recv value = receive api "StoreMessage" (read_presult value)

  unfoldable pub call : ℕ → ReqCheckResult → Call T ℕ
  unfolding send recv
  call value s = send s >>= λ _. recv value

-- The processor, with no event handler. `serve` is the service's own code, and `app_exception` what
-- `TApplicationException::write` sends. `none` when reading the arguments throws.
module _ (serve : ReqCheckResult → Answer (ℕ)) (app_exception : String → Fields) where
  abbrev pub answer : ℕ → Answer (ℕ) → Message
  answer seqid (gives v) = record {
    name = "StoreMessage";
    message_type = t_reply;
    seqid = seqid;
    body = write_result (record { success = v; is_set = record { success_set = true } });
  }
  answer seqid (throws what) = record {
    name = "StoreMessage";
    message_type = t_exception;
    seqid = seqid;
    body = app_exception what;
  }

  unfoldable pub process : ℕ → Fields → Option Message
  unfolding write_result read_args
  process seqid fs = fill (λ (args : Args). answer seqid (serve args.s)) (read_args fs new_args)
