-- ===== src/Thrift.antt =====
-- thrift/: how the messages to the services are written and read, and the generated clients and
-- processors. `Fields` is what a `TProtocol` gives to one `read`, in its order, or is given by one
-- `write`; the protocol's own encoding of it, and the count of bytes, are not modelled.
use thirft_proxy.Prelude.{ℕ, List, Option, none, some}
pub mod Reading
pub mod Client
pub mod CheckResult
pub mod RequestCheck
pub mod ReqCheckResult
pub mod ReqProto
pub mod AckProto
pub mod IdentityServ
pub mod Remote
pub mod Services
pub mod Messages
pub mod TisService

-- A field's value, by its `TType`; the messages have no fields of other types. Numbers are bit
-- patterns. In a stream, `stop` is `T_STOP`, and at `broken` a read throws.
mutual
  pub data Value : Type 0 where
    i32 byte : ℕ → Value
    string : List ℕ → Value
    struct : Fields → Value
    other : Value

  pub data Fields : Type 0 where
    stop broken : Fields
    field : ℕ → Value → Fields → Fields

module _ {A : Type 0} where
  abbrev pub on_i32 : Value → (ℕ → A) → A → A
  on_i32 (i32 x) f a = f x
  on_i32 (byte x) f a = a
  on_i32 (string x) f a = a
  on_i32 (struct x) f a = a
  on_i32 other f a = a

  abbrev pub on_byte : Value → (ℕ → A) → A → A
  on_byte (i32 x) f a = a
  on_byte (byte x) f a = f x
  on_byte (string x) f a = a
  on_byte (struct x) f a = a
  on_byte other f a = a

  abbrev pub on_string : Value → (List ℕ → A) → A → A
  on_string (i32 x) f a = a
  on_string (byte x) f a = a
  on_string (string x) f a = f x
  on_string (struct x) f a = a
  on_string other f a = a

  abbrev pub on_struct : Value → (Fields → A) → A → A
  on_struct (i32 x) f a = a
  on_struct (byte x) f a = a
  on_struct (string x) f a = a
  on_struct (struct x) f a = f x
  on_struct other f a = a

-- A member that is read by its own `read`, which may throw.
abbrev pub fill : {A B : Type 0} → (A → B) → Option A → Option B
fill f none = none
fill f (some a) = some (f a)
