-- ===== src/Thrift/ReqCheckResult.antt =====
-- thrift/identity_types.cpp: `ReqCheckResult`, the message to be stored.
use thirft_proxy.Prelude.{
  ℕ, ◌≡◌, refl, ap, ◌∙◌, Bool, true, false, Option, some, List, [], ◌==◌, if◌then◌else◌, arith,
}
use thirft_proxy.Thrift.{
  Value, i32, byte, string, struct, other, Fields, stop, field, on_i32, on_byte, on_string,
}
use thirft_proxy.Thrift.Reading.{read_fields, known_fields, read_fields-known_fields}

-- `ReqCheckResult`: `__isset`, and the fields.
pub record ReqCheckResultIsSet : Type 0 where
  pub message_set : Bool
  pub flag_set : Bool
  pub appid_set : Bool
  pub gameid_set : Bool
  pub nick_set : Bool
  pub type_set : Bool
  pub serverid_set : Bool
  pub userid_set : Bool
  pub rolegrade_set : Bool
  pub vipgrade_set : Bool

pub record ReqCheckResult : Type 0 where
  pub message : List ℕ
  pub flag : ℕ
  pub appid : ℕ
  pub gameid : ℕ
  pub nick : List ℕ
  pub type : ℕ
  pub serverid : ℕ
  pub userid : ℕ
  pub rolegrade : ℕ
  pub vipgrade : ℕ
  pub is_set : ReqCheckResultIsSet

-- One round of the loop of `read`: the field goes where its number and its type say, or is skipped.
unfoldable pub read_req_check_result_field : ℕ → Value → ReqCheckResult → Option ReqCheckResult
read_req_check_result_field fid value s =
    if fid == 1
    then on_string value
        (λ v. some (record s { message = v; is_set = record s.is_set { message_set = true } }))
        (some s)
    else if fid == 2
    then on_i32 value
        (λ v. some (record s { flag = v; is_set = record s.is_set { flag_set = true } })) (some s)
    else if fid == 3
    then on_i32 value
        (λ v. some (record s { appid = v; is_set = record s.is_set { appid_set = true } })) (some s)
    else if fid == 4
    then on_i32 value
        (λ v. some (record s { gameid = v; is_set = record s.is_set { gameid_set = true } }))
        (some s)
    else if fid == 5
    then on_string value
        (λ v. some (record s { nick = v; is_set = record s.is_set { nick_set = true } })) (some s)
    else if fid == 6
    then on_byte value
        (λ v. some (record s { type = v; is_set = record s.is_set { type_set = true } })) (some s)
    else if fid == 7
    then on_i32 value
        (λ v. some (record s { serverid = v; is_set = record s.is_set { serverid_set = true } }))
        (some s)
    else if fid == 8
    then on_i32 value
        (λ v. some (record s { userid = v; is_set = record s.is_set { userid_set = true } }))
        (some s)
    else if fid == 9
    then on_i32 value
        (λ v. some (record s { rolegrade = v; is_set = record s.is_set { rolegrade_set = true } }))
        (some s)
    else if fid == 10
    then on_i32 value
        (λ v. some (record s { vipgrade = v; is_set = record s.is_set { vipgrade_set = true } }))
        (some s)
    else some s

-- `read`: `none` when a read throws.
unfoldable pub read_req_check_result : Fields → ReqCheckResult → Option ReqCheckResult
unfolding read_fields read_req_check_result_field
read_req_check_result fs s = read_fields read_req_check_result_field fs s

unfoldable pub write_req_check_result : ReqCheckResult → Fields
write_req_check_result s = field 1 (string s.message) (
    field 2 (i32 s.flag) (
      field 3 (i32 s.appid) (
        field 4 (i32 s.gameid) (
          field 5 (string s.nick) (
            field 6 (byte s.type) (
              field 7 (i32 s.serverid) (
                field 8 (i32 s.userid)
                  (field 9 (i32 s.rolegrade) (field 10 (i32 s.vipgrade) stop)))))))))

-- A field that the structure has, by its number and its type.
abbrev pub is_req_check_result_field : ℕ → Value → Bool
is_req_check_result_field fid value =
    if fid == 1
    then on_string value (λ v. true) false
    else if fid == 2
    then on_i32 value (λ v. true) false
    else if fid == 3
    then on_i32 value (λ v. true) false
    else if fid == 4
    then on_i32 value (λ v. true) false
    else if fid == 5
    then on_string value (λ v. true) false
    else if fid == 6
    then on_byte value (λ v. true) false
    else if fid == 7
    then on_i32 value (λ v. true) false
    else if fid == 8
    then on_i32 value (λ v. true) false
    else if fid == 9
    then on_i32 value (λ v. true) false
    else if fid == 10
    then on_i32 value (λ v. true) false
    else false

-- What a reader that held `old` has once `s` was written and read.
abbrev pub received_req_check_result : ReqCheckResult → ReqCheckResult → ReqCheckResult
received_req_check_result old s = record s {
  is_set = record {
    message_set = true;
    flag_set = true;
    appid_set = true;
    gameid_set = true;
    nick_set = true;
    type_set = true;
    serverid_set = true;
    userid_set = true;
    rolegrade_set = true;
    vipgrade_set = true;
  };
}

req_check_result_field-skipped :
    (fid : ℕ) (value : Value) (s : ReqCheckResult)
    → is_req_check_result_field fid value ≡ false
    → read_req_check_result_field fid value s ≡ some s
unfolding read_req_check_result_field
req_check_result_field-skipped fid (i32 x) s h = ground (arith, h)
req_check_result_field-skipped fid (byte x) s h = ground (arith, h)
req_check_result_field-skipped fid (string x) s h = ground (arith, h)
req_check_result_field-skipped fid (struct x) s h = ground (arith, h)
req_check_result_field-skipped fid other s h = ground (arith, h)

pub read_req_check_result-received :
    (s old : ReqCheckResult)
    → read_req_check_result (write_req_check_result s) old ≡ some (received_req_check_result old s)
unfolding read_req_check_result write_req_check_result
read_req_check_result-received s old = refl

-- Over any old value, `read` gives what `write` was given, from every stream that has the fields
-- that `write` sends in their order, whatever other fields stand between, before or behind them.
pub read_req_check_result-write_req_check_result :
    (fs : Fields) (s old : ReqCheckResult)
    → known_fields is_req_check_result_field fs ≡ write_req_check_result s
    → read_req_check_result fs old ≡ some (received_req_check_result old s)
unfolding read_req_check_result
read_req_check_result-write_req_check_result fs s old h =
    read_fields-known_fields read_req_check_result_field is_req_check_result_field
      req_check_result_field-skipped fs old
    ∙ ap (λ k. read_req_check_result k old) h
    ∙ read_req_check_result-received s old

-- The constructor.
abbrev pub new_req_check_result : ReqCheckResult
new_req_check_result = record {
  message = [];
  flag = 0;
  appid = 0;
  gameid = 0;
  nick = [];
  type = 0;
  serverid = 0;
  userid = 0;
  rolegrade = 0;
  vipgrade = 0;
  is_set = record {
    message_set = false;
    flag_set = false;
    appid_set = false;
    gameid_set = false;
    nick_set = false;
    type_set = false;
    serverid_set = false;
    userid_set = false;
    rolegrade_set = false;
    vipgrade_set = false;
  };
}
