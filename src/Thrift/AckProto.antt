-- ===== src/Thrift/AckProto.antt =====
-- thrift/identity_types.cpp: `AckProto`, the answer with an identity.
use thirft_proxy.Prelude.{
  ℕ, ◌≡◌, refl, ap, ◌∙◌, Bool, true, false, Option, some, List, [], ◌==◌, if◌then◌else◌, arith,
}
use thirft_proxy.Thrift.{Value, i32, byte, string, struct, other, Fields, stop, field, on_string}
use thirft_proxy.Thrift.Reading.{read_fields, known_fields, read_fields-known_fields}

-- `AckProto`: `__isset`, and the fields.
pub record AckProtoIsSet : Type 0 where
  pub identity_set : Bool

pub record AckProto : Type 0 where
  pub identity : List ℕ
  pub is_set : AckProtoIsSet

-- One round of the loop of `read`: the field goes where its number and its type say, or is skipped.
unfoldable pub read_ack_proto_field : ℕ → Value → AckProto → Option AckProto
read_ack_proto_field fid value s =
    if fid == 1
    then on_string value
        (λ v. some (record s { identity = v; is_set = record s.is_set { identity_set = true } }))
        (some s)
    else some s

-- `read`: `none` when a read throws.
unfoldable pub read_ack_proto : Fields → AckProto → Option AckProto
unfolding read_fields read_ack_proto_field
read_ack_proto fs s = read_fields read_ack_proto_field fs s

unfoldable pub write_ack_proto : AckProto → Fields
write_ack_proto s = field 1 (string s.identity) stop

-- A field that the structure has, by its number and its type.
abbrev pub is_ack_proto_field : ℕ → Value → Bool
is_ack_proto_field fid value = if fid == 1 then on_string value (λ v. true) false else false

-- What a reader that held `old` has once `s` was written and read.
abbrev pub received_ack_proto : AckProto → AckProto → AckProto
received_ack_proto old s = record s { is_set = record { identity_set = true } }

ack_proto_field-skipped :
    (fid : ℕ) (value : Value) (s : AckProto)
    → is_ack_proto_field fid value ≡ false
    → read_ack_proto_field fid value s ≡ some s
unfolding read_ack_proto_field
ack_proto_field-skipped fid (i32 x) s h = ground (arith, h)
ack_proto_field-skipped fid (byte x) s h = ground (arith, h)
ack_proto_field-skipped fid (string x) s h = ground (arith, h)
ack_proto_field-skipped fid (struct x) s h = ground (arith, h)
ack_proto_field-skipped fid other s h = ground (arith, h)

pub read_ack_proto-received :
    (s old : AckProto) → read_ack_proto (write_ack_proto s) old ≡ some (received_ack_proto old s)
unfolding read_ack_proto write_ack_proto
read_ack_proto-received s old = refl

-- Over any old value, `read` gives what `write` was given, from every stream that has the fields
-- that `write` sends in their order, whatever other fields stand between, before or behind them.
pub read_ack_proto-write_ack_proto :
    (fs : Fields) (s old : AckProto)
    → known_fields is_ack_proto_field fs ≡ write_ack_proto s
    → read_ack_proto fs old ≡ some (received_ack_proto old s)
unfolding read_ack_proto
read_ack_proto-write_ack_proto fs s old h =
    read_fields-known_fields read_ack_proto_field is_ack_proto_field ack_proto_field-skipped fs old
    ∙ ap (λ k. read_ack_proto k old) h
    ∙ read_ack_proto-received s old

-- The constructor.
abbrev pub new_ack_proto : AckProto
new_ack_proto = record { identity = []; is_set = record { identity_set = false } }
