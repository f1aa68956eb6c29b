-- ===== src/Thrift/RequestCheck.antt =====
-- thrift/tis_types.cpp: `RequestCheckStruct`, the question to the filter.
use thirft_proxy.Prelude.{
  ℕ, ◌≡◌, refl, ap, ◌∙◌, Bool, true, false, Option, some, List, [], ◌==◌, if◌then◌else◌, arith,
}
use thirft_proxy.Thrift.{
  Value, i32, byte, string, struct, other, Fields, stop, field, on_i32, on_string,
}
use thirft_proxy.Thrift.Reading.{read_fields, known_fields, read_fields-known_fields}

-- `RequestCheckStruct`: `__isset`, and the fields.
pub record RequestCheckStructIsSet : Type 0 where
  pub appid_set : Bool
  pub gameid_set : Bool
  pub content_set : Bool
  pub dataid_set : Bool
  pub userid_set : Bool
  pub ip_set : Bool

pub record RequestCheckStruct : Type 0 where
  pub appid : ℕ
  pub gameid : ℕ
  pub content : List ℕ
  pub dataid : List ℕ
  pub userid : List ℕ
  pub ip : List ℕ
  pub is_set : RequestCheckStructIsSet

-- One round of the loop of `read`: the field goes where its number and its type say, or is skipped.
unfoldable pub read_request_check_field : ℕ → Value → RequestCheckStruct → Option RequestCheckStruct
read_request_check_field fid value s =
    if fid == 1
    then on_i32 value
        (λ v. some (record s { appid = v; is_set = record s.is_set { appid_set = true } })) (some s)
    else if fid == 2
    then on_i32 value
        (λ v. some (record s { gameid = v; is_set = record s.is_set { gameid_set = true } }))
        (some s)
    else if fid == 3
    then on_string value
        (λ v. some (record s { content = v; is_set = record s.is_set { content_set = true } }))
        (some s)
    else if fid == 4
    then on_string value
        (λ v. some (record s { dataid = v; is_set = record s.is_set { dataid_set = true } }))
        (some s)
    else if fid == 5
    then on_string value
        (λ v. some (record s { userid = v; is_set = record s.is_set { userid_set = true } }))
        (some s)
    else if fid == 6
    then on_string value
        (λ v. some (record s { ip = v; is_set = record s.is_set { ip_set = true } })) (some s)
    else some s

-- `read`: `none` when a read throws.
unfoldable pub read_request_check : Fields → RequestCheckStruct → Option RequestCheckStruct
unfolding read_fields read_request_check_field
read_request_check fs s = read_fields read_request_check_field fs s

unfoldable pub write_request_check : RequestCheckStruct → Fields
write_request_check s = field 1 (i32 s.appid) (
    field 2 (i32 s.gameid) (
      field 3 (string s.content)
        (field 4 (string s.dataid) (field 5 (string s.userid) (field 6 (string s.ip) stop)))))

-- A field that the structure has, by its number and its type.
abbrev pub is_request_check_field : ℕ → Value → Bool
is_request_check_field fid value =
    if fid == 1
    then on_i32 value (λ v. true) false
    else if fid == 2
    then on_i32 value (λ v. true) false
    else if fid == 3
    then on_string value (λ v. true) false
    else if fid == 4
    then on_string value (λ v. true) false
    else if fid == 5
    then on_string value (λ v. true) false
    else if fid == 6
    then on_string value (λ v. true) false
    else false

-- What a reader that held `old` has once `s` was written and read.
abbrev pub received_request_check : RequestCheckStruct → RequestCheckStruct → RequestCheckStruct
received_request_check old s = record s {
  is_set = record {
    appid_set = true;
    gameid_set = true;
    content_set = true;
    dataid_set = true;
    userid_set = true;
    ip_set = true;
  };
}

request_check_field-skipped :
    (fid : ℕ) (value : Value) (s : RequestCheckStruct)
    → is_request_check_field fid value ≡ false
    → read_request_check_field fid value s ≡ some s
unfolding read_request_check_field
request_check_field-skipped fid (i32 x) s h = ground (arith, h)
request_check_field-skipped fid (byte x) s h = ground (arith, h)
request_check_field-skipped fid (string x) s h = ground (arith, h)
request_check_field-skipped fid (struct x) s h = ground (arith, h)
request_check_field-skipped fid other s h = ground (arith, h)

pub read_request_check-received :
    (s old : RequestCheckStruct)
    → read_request_check (write_request_check s) old ≡ some (received_request_check old s)
unfolding read_request_check write_request_check
read_request_check-received s old = refl

-- Over any old value, `read` gives what `write` was given, from every stream that has the fields
-- that `write` sends in their order, whatever other fields stand between, before or behind them.
pub read_request_check-write_request_check :
    (fs : Fields) (s old : RequestCheckStruct)
    → known_fields is_request_check_field fs ≡ write_request_check s
    → read_request_check fs old ≡ some (received_request_check old s)
unfolding read_request_check
read_request_check-write_request_check fs s old h =
    read_fields-known_fields read_request_check_field is_request_check_field
      request_check_field-skipped fs old
    ∙ ap (λ k. read_request_check k old) h
    ∙ read_request_check-received s old

-- The constructor.
abbrev pub new_request_check : RequestCheckStruct
new_request_check = record {
  appid = 0;
  gameid = 0;
  content = [];
  dataid = [];
  userid = [];
  ip = [];
  is_set = record {
    appid_set = false;
    gameid_set = false;
    content_set = false;
    dataid_set = false;
    userid_set = false;
    ip_set = false;
  };
}
