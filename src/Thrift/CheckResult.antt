-- ===== src/Thrift/CheckResult.antt =====
-- thrift/tis_types.cpp: `CheckResultStruct`, the answer of the filter.
use thirft_proxy.Prelude.{
  ℕ, ◌≡◌, refl, ap, ◌∙◌, Bool, true, false, Option, some, List, [], ◌==◌, if◌then◌else◌, arith,
}
use thirft_proxy.Thrift.{
  Value, i32, byte, string, struct, other, Fields, stop, field, on_i32, on_string,
}
use thirft_proxy.Thrift.Reading.{read_fields, known_fields, read_fields-known_fields}

-- `CheckResultStruct`: `__isset`, and the fields.
pub record CheckResultStructIsSet : Type 0 where
  pub code_set : Bool
  pub action_set : Bool
  pub label_set : Bool
  pub level_set : Bool
  pub detail_set : Bool

pub record CheckResultStruct : Type 0 where
  pub code : ℕ
  pub action : ℕ
  pub label : ℕ
  pub level : ℕ
  pub detail : List ℕ
  pub is_set : CheckResultStructIsSet

-- One round of the loop of `read`: the field goes where its number and its type say, or is skipped.
unfoldable pub read_check_result_field : ℕ → Value → CheckResultStruct → Option CheckResultStruct
read_check_result_field fid value s =
    if fid == 1
    then on_i32 value
        (λ v. some (record s { code = v; is_set = record s.is_set { code_set = true } })) (some s)
    else if fid == 2
    then on_i32 value
        (λ v. some (record s { action = v; is_set = record s.is_set { action_set = true } }))
        (some s)
    else if fid == 3
    then on_i32 value
        (λ v. some (record s { label = v; is_set = record s.is_set { label_set = true } })) (some s)
    else if fid == 4
    then on_i32 value
        (λ v. some (record s { level = v; is_set = record s.is_set { level_set = true } })) (some s)
    else if fid == 5
    then on_string value
        (λ v. some (record s { detail = v; is_set = record s.is_set { detail_set = true } }))
        (some s)
    else some s

-- `read`: `none` when a read throws.
unfoldable pub read_check_result : Fields → CheckResultStruct → Option CheckResultStruct
unfolding read_fields read_check_result_field
read_check_result fs s = read_fields read_check_result_field fs s

unfoldable pub write_check_result : CheckResultStruct → Fields
write_check_result s = field 1 (i32 s.code) (
    field 2 (i32 s.action)
      (field 3 (i32 s.label) (field 4 (i32 s.level) (field 5 (string s.detail) stop))))

-- A field that the structure has, by its number and its type.
abbrev pub is_check_result_field : ℕ → Value → Bool
is_check_result_field fid value =
    if fid == 1
    then on_i32 value (λ v. true) false
    else if fid == 2
    then on_i32 value (λ v. true) false
    else if fid == 3
    then on_i32 value (λ v. true) false
    else if fid == 4
    then on_i32 value (λ v. true) false
    else if fid == 5
    then on_string value (λ v. true) false
    else false

-- What a reader that held `old` has once `s` was written and read.
abbrev pub received_check_result : CheckResultStruct → CheckResultStruct → CheckResultStruct
received_check_result old s = record s {
  is_set = record {
    code_set = true;
    action_set = true;
    label_set = true;
    level_set = true;
    detail_set = true;
  };
}

check_result_field-skipped :
    (fid : ℕ) (value : Value) (s : CheckResultStruct)
    → is_check_result_field fid value ≡ false
    → read_check_result_field fid value s ≡ some s
unfolding read_check_result_field
check_result_field-skipped fid (i32 x) s h = ground (arith, h)
check_result_field-skipped fid (byte x) s h = ground (arith, h)
check_result_field-skipped fid (string x) s h = ground (arith, h)
check_result_field-skipped fid (struct x) s h = ground (arith, h)
check_result_field-skipped fid other s h = ground (arith, h)

pub read_check_result-received :
    (s old : CheckResultStruct)
    → read_check_result (write_check_result s) old ≡ some (received_check_result old s)
unfolding read_check_result write_check_result
read_check_result-received s old = refl

-- Over any old value, `read` gives what `write` was given, from every stream that has the fields
-- that `write` sends in their order, whatever other fields stand between, before or behind them.
pub read_check_result-write_check_result :
    (fs : Fields) (s old : CheckResultStruct)
    → known_fields is_check_result_field fs ≡ write_check_result s
    → read_check_result fs old ≡ some (received_check_result old s)
unfolding read_check_result
read_check_result-write_check_result fs s old h =
    read_fields-known_fields read_check_result_field is_check_result_field
      check_result_field-skipped fs old
    ∙ ap (λ k. read_check_result k old) h
    ∙ read_check_result-received s old

-- The constructor.
abbrev pub new_check_result : CheckResultStruct
new_check_result = record {
  code = 0;
  action = 0;
  label = 0;
  level = 0;
  detail = [];
  is_set = record {
    code_set = false;
    action_set = false;
    label_set = false;
    level_set = false;
    detail_set = false;
  };
}
