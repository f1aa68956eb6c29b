-- ===== src/Thrift/Remote.antt =====
-- A transport that leads to a processor, for clients and processors in one program.
pub mod Tis
pub mod Identity
use Prim.Native.String.{String}
use thirft_proxy.Prelude.{Bool, true, Option, none, some}
use thirft_proxy.Thrift.{Fields, broken}
use thirft_proxy.Thrift.Client.{ProtocolApi, Message, MessageType, Answer, gives, throws}

-- A transport in memory: what is written is served at once, and what is read is the answer, once.
pub record Loop : Type 0 where
  pub serve : Message → Option Message
  pub pending : Option Message

abbrev pub header : Option Message → Option (String × MessageType)
header none = none
header (some m) = some (m.name, m.message_type)

abbrev pub body_of : Option Message → Fields
body_of none = broken
body_of (some m) = m.body

abbrev pub loop_api : ProtocolApi Loop
loop_api = record {
  write_message = λ m t. (true, record t { pending = t.serve m });
  read_begin = λ t. (header t.pending, t);
  read_struct = λ t. (body_of t.pending, record t { pending = none });
  read_exception = λ t. (true, record t { pending = none });
  skip_struct = λ t. (true, record t { pending = none });
  read_end = λ t. t;
}

abbrev pub loop_to : (Message → Option Message) → Loop
loop_to serve = record { serve = serve; pending = none }

-- What a local call would give the caller.
abbrev pub outcome : {A B : Type 0} → (A → B) → Answer A → Option B
outcome f (gives a) = some (f a)
outcome f (throws what) = none
