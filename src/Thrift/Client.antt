-- ===== src/Thrift/Client.antt =====
-- The generated clients and processors of thrift/TisService.cpp and thrift/IdentityServ.cpp: what
-- all methods share. The protocol and the transport below it are a library's: `ProtocolApi`.
use Prim.Native.String.{String}
use text.Mathlib.Text.{◌==◌ as str_eq}
use thirft_proxy.Prelude.{ℕ, Bool, true, false, Option, none, some, if◌then◌else◌}
use thirft_proxy.Thrift.{Fields}

-- `TMessageType`.
pub data MessageType : Type 0 where
  t_call t_reply t_exception t_oneway : MessageType

pub record Message : Type 0 where
  pub name : String
  pub message_type : MessageType
  pub seqid : ℕ
  pub body : Fields

-- What a `TProtocol` does to its transport `T`. A `false` or `none` is a thrown exception.
-- `write_message` is all from `writeMessageBegin` to `flush`; `read_exception` is
-- `TApplicationException::read`, `skip_struct` is `skip(T_STRUCT)`, and `read_end` is
-- `readMessageEnd` and the transport's `readEnd`.
pub record ProtocolApi (T : Type 0) : Type 0 where
  pub write_message : Message → T → Bool × T
  pub read_begin : T → Option (String × MessageType) × T
  pub read_struct : T → Fields × T
  pub read_exception : T → Bool × T
  pub skip_struct : T → Bool × T
  pub read_end : T → T

-- An action on the transport, which may throw; what it did before it threw stays done.
abbrev pub Call : Type 0 → Type 0 → Type 0
Call T A = T → Option A × T

module _ {T A : Type 0} where
  abbrev pub give : A → Call T A
  give a t = (some a, t)

  abbrev pub throw : Call T A
  throw t = (none, t)

  abbrev pub from_option : Option A → Call T A
  from_option r t = (r, t)

module _ {T A B : Type 0} where
  abbrev pub continue : Option A → (A → Call T B) → Call T B
  continue none f t = (none, t)
  continue (some a) f t = f a t

  infixl 5 ◌>>=◌ ◌>>◌
  abbrev pub ◌>>=◌ : Call T A → (A → Call T B) → Call T B
  ◌>>=◌ m f t = continue (m t).0 f (m t).1

  abbrev pub ◌>>◌ : Call T A → Call T B → Call T B
  m >> n = m >>= λ _. n

abbrev pub is_exception : MessageType → Bool
is_exception t_exception = true
is_exception t_call = false
is_exception t_reply = false
is_exception t_oneway = false

abbrev pub is_reply : MessageType → Bool
is_reply t_reply = true
is_reply t_call = false
is_reply t_exception = false
is_reply t_oneway = false

module _ {T : Type 0} (api : ProtocolApi T) where
  open api use {write_message, read_begin, read_struct, read_exception, skip_struct, read_end}

  abbrev pub attempt : (T → Bool × T) → Call T (Unit {0})
  attempt op t = (if (op t).0 then some tt else none, (op t).1)

  abbrev pub end : Call T (Unit {0})
  end t = (some tt, read_end t)

  abbrev pub next_struct : Call T Fields
  next_struct t = (some (read_struct t).0, (read_struct t).1)

  -- `send_*`.
  unfoldable pub send_call : String → Fields → Call T (Unit {0})
  send_call name args =
      attempt
        (write_message (record { name = name; message_type = t_call; seqid = 0; body = args }))

  -- The first test of `recv_*`: an exception is read, and thrown.
  abbrev pub unless_exception : MessageType → Call T (Unit {0})
  unless_exception mtype =
      if is_exception mtype then (attempt read_exception >> end >> throw) else give tt

  -- The other two tests of `recv_*`: what comes is skipped, and the function goes on.
  abbrev pub skip_unless : Bool → Call T (Unit {0})
  skip_unless b = if b then give tt else (attempt skip_struct >> end)

  -- `recv_*`; `read_presult` gives `_return` and whether it was set.
  unfoldable pub receive : {A : Type 0} → String → (Fields → Option (A × Bool)) → Call T A
  receive name read_presult = do
    (fname, mtype) ← read_begin
    unless_exception mtype
    skip_unless (is_reply mtype)
    skip_unless (str_eq fname name)
    fs ← next_struct
    (value, is_set) ← from_option (read_presult fs)
    end
    if is_set then give value else throw

-- What the service's own code gives, or throws with its text.
pub data Answer (A : Type 0) : Type 0 where
  gives : A → Answer A
  throws : String → Answer A
