-- ===== src/Thrift/TisService/Ping.antt =====
-- thrift/TisService.cpp: the method `ping`: its arguments and its result, the client and the processor.
use Prim.Native.String.{String}
use thirft_proxy.Prelude.{ℕ, Bool, true, Option, some}
use thirft_proxy.Thrift.{Fields, stop, fill}
use thirft_proxy.Thrift.Reading.{read_fields}
use thirft_proxy.Thrift.Client.{
  ProtocolApi, Call, ◌>>=◌, send_call, receive, Message, t_reply, t_exception, Answer, gives,
  throws,
}

-- `TisService_ping_args` has no fields: each that comes is skipped.
unfoldable pub read_args : Fields → Unit {0} → Option (Unit {0})
unfolding read_fields
read_args fs s = read_fields (λ fid value t. some t) fs s

-- `TisService_ping_pargs`.
abbrev pub write_pargs : Fields
write_pargs = stop

-- `TisService_ping_result` and `TisService_ping_presult` have no fields.
unfoldable pub read_result : Fields → Unit {0} → Option (Unit {0})
unfolding read_fields
read_result fs s = read_fields (λ fid value t. some t) fs s

abbrev pub write_result : Fields
write_result = stop

-- There is nothing to be set: `recv_ping` returns.
unfoldable pub read_presult : Fields → Option (Unit {0} × Bool)
unfolding read_fields
read_presult fs = read_fields (λ fid value t. some t) fs (tt, true)

module _ {T : Type 0} (api : ProtocolApi T) where
  unfoldable pub send : Unit {0} → Call T (Unit {0})
  unfolding send_call
  send arg = send_call api "ping" write_pargs

  unfoldable pub recv : Call T (Unit {0})
  unfolding receive
  recv = receive api "ping" read_presult

  unfoldable pub call : Call T (Unit {0})
  unfolding send recv
  call = send tt >>= λ _. recv

-- The processor, with no event handler. `serve` is the service's own code, and `app_exception` what
-- `TApplicationException::write` sends. `none` when reading the arguments throws.
module _ (serve : Unit {0} → Answer (Unit {0})) (app_exception : String → Fields) where
  abbrev pub answer : ℕ → Answer (Unit {0}) → Message
  answer seqid (gives v) = record {
    name = "ping";
    message_type = t_reply;
    seqid = seqid;
    body = write_result;
  }
  answer seqid (throws what) = record {
    name = "ping";
    message_type = t_exception;
    seqid = seqid;
    body = app_exception what;
  }

  unfoldable pub process : ℕ → Fields → Option Message
  unfolding read_args
  process seqid fs = fill (λ (args : Unit {0}). answer seqid (serve args)) (read_args fs tt)
