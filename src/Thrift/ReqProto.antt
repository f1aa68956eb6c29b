-- ===== src/Thrift/ReqProto.antt =====
-- thrift/identity_types.cpp: `ReqProto`, the question for an identity.
use thirft_proxy.Prelude.{
  ℕ, ◌≡◌, refl, ap, ◌∙◌, Bool, true, false, Option, some, ◌==◌, if◌then◌else◌, arith,
}
use thirft_proxy.Thrift.{Value, i32, byte, string, struct, other, Fields, stop, field, on_i32}
use thirft_proxy.Thrift.Reading.{read_fields, known_fields, read_fields-known_fields}

-- `ReqProto`: `__isset`, and the fields.
pub record ReqProtoIsSet : Type 0 where
  pub userid_set : Bool

pub record ReqProto : Type 0 where
  pub userid : ℕ
  pub is_set : ReqProtoIsSet

-- One round of the loop of `read`: the field goes where its number and its type say, or is skipped.
unfoldable pub read_req_proto_field : ℕ → Value → ReqProto → Option ReqProto
read_req_proto_field fid value s =
    if fid == 1
    then on_i32 value
        (λ v. some (record s { userid = v; is_set = record s.is_set { userid_set = true } }))
        (some s)
    else some s

-- `read`: `none` when a read throws.
unfoldable pub read_req_proto : Fields → ReqProto → Option ReqProto
unfolding read_fields read_req_proto_field
read_req_proto fs s = read_fields read_req_proto_field fs s

unfoldable pub write_req_proto : ReqProto → Fields
write_req_proto s = field 1 (i32 s.userid) stop

-- A field that the structure has, by its number and its type.
abbrev pub is_req_proto_field : ℕ → Value → Bool
is_req_proto_field fid value = if fid == 1 then on_i32 value (λ v. true) false else false

-- What a reader that held `old` has once `s` was written and read.
abbrev pub received_req_proto : ReqProto → ReqProto → ReqProto
received_req_proto old s = record s { is_set = record { userid_set = true } }

req_proto_field-skipped :
    (fid : ℕ) (value : Value) (s : ReqProto)
    → is_req_proto_field fid value ≡ false
    → read_req_proto_field fid value s ≡ some s
unfolding read_req_proto_field
req_proto_field-skipped fid (i32 x) s h = ground (arith, h)
req_proto_field-skipped fid (byte x) s h = ground (arith, h)
req_proto_field-skipped fid (string x) s h = ground (arith, h)
req_proto_field-skipped fid (struct x) s h = ground (arith, h)
req_proto_field-skipped fid other s h = ground (arith, h)

pub read_req_proto-received :
    (s old : ReqProto) → read_req_proto (write_req_proto s) old ≡ some (received_req_proto old s)
unfolding read_req_proto write_req_proto
read_req_proto-received s old = refl

-- Over any old value, `read` gives what `write` was given, from every stream that has the fields
-- that `write` sends in their order, whatever other fields stand between, before or behind them.
pub read_req_proto-write_req_proto :
    (fs : Fields) (s old : ReqProto)
    → known_fields is_req_proto_field fs ≡ write_req_proto s
    → read_req_proto fs old ≡ some (received_req_proto old s)
unfolding read_req_proto
read_req_proto-write_req_proto fs s old h =
    read_fields-known_fields read_req_proto_field is_req_proto_field req_proto_field-skipped fs old
    ∙ ap (λ k. read_req_proto k old) h
    ∙ read_req_proto-received s old

-- The constructor.
abbrev pub new_req_proto : ReqProto
new_req_proto = record { userid = 0; is_set = record { userid_set = false } }
