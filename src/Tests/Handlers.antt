-- ===== src/Tests/Handlers.antt =====
-- handler/tis_proto_handler.cpp with two pools of two connections, over a protocol on which every
-- answer is that of the filter.
use thirft_proxy.Prelude.{
  ◌≡◌, refl, Outcome, done, fault, stuck, Bool, true, some, List, [], ◌∷◌, ◌++◌,
}
use thirft_proxy.ConnectionPool.{
  get_connection, release, start_index, find_available, for_each, mark_released, recheck,
  available_count, count_available, shut_down, reopen,
}
use thirft_proxy.Connection.{available}
use thirft_proxy.ConnectionPool.Registry.{
  Registry, select_conn_pool, update_pool, get_connection_by_ser, release_connection_by_ser,
}
use thirft_proxy.ClientInfo.{ClientInfo}
use thirft_proxy.Proto.{read_le, write_le}
use thirft_proxy.Proxy.Accept.{accepted}
use thirft_proxy.Thrift.{field, struct, stop}
use thirft_proxy.Thrift.Reading.{read_fields}
use thirft_proxy.Thrift.CheckResult.{new_check_result, write_check_result, read_check_result}
use thirft_proxy.Thrift.Client.{ProtocolApi, t_reply, send_call, receive}
use thirft_proxy.Thrift.TisService.Check
use thirft_proxy.Thrift.IdentityServ.StoreMessage
use thirft_proxy.Handler.Text.{c_string}
use thirft_proxy.Handler.Steps.{
  Event, Turn, lease, release as release_step, reply, call_on, on_transport,
}
use thirft_proxy.Handler.{handle_tis, store_message, after_check}
use thirft_proxy.Handler.Order.{Turned}
use thirft_proxy.Handler.Balance.{replies, leases, nothing_open, handle_tis_lem}
use thirft_proxy.Tests.Pools.{reliable, both_free}
use thirft_proxy.Tests.Proxies.{one, packet}

abbrev judging : ProtocolApi Bool
judging = record {
  write_message = λ m t. (true, t);
  read_begin = λ t. (some ("check", t_reply), t);
  read_struct =
      λ t. (field 0 (struct (write_check_result (record new_check_result { action = 1 }))) stop, t);
  read_exception = λ t. (true, t);
  skip_struct = λ t. (true, t);
  read_end = λ t. t;
}

abbrev both_pools : Registry reliable
both_pools = ("tis", both_free) ∷ ("dbser", both_free) ∷ []

-- No other thread takes a step.
abbrev alone : List Event → Registry reliable → Registry reliable
alone ev m = m

abbrev begin : Turn reliable
begin = record { pools = both_pools; events = [] }

abbrev a_client : ClientInfo
a_client = accepted 1 50 packet 20 1024 one

abbrev or_begin : Outcome (Turn reliable) → Turn reliable
or_begin (done t) = t
or_begin fault = begin
or_begin stuck = begin

abbrev ended : Turn reliable
unfolding handle_tis
ended = or_begin (handle_tis reliable judging 200 0 alone a_client begin)

handle_run : handle_tis reliable judging 200 0 alone a_client begin ≡ done ended
unfolding handle_tis c_string lease get_connection_by_ser select_conn_pool get_connection
    start_index find_available available call_on on_transport update_pool Check.call Check.send
    Check.recv send_call receive read_le Check.read_presult read_fields read_check_result
    write_check_result after_check release_step release_connection_by_ser release mark_released
    available_count count_available recheck for_each shut_down reopen reply store_message
    StoreMessage.call StoreMessage.send StoreMessage.recv StoreMessage.read_presult write_le
handle_run = refl

handle_tis_lem_example :
    (v : Turned reliable a_client begin ended) × (replies (v.asking ++ v.storing) ≡ 1)
    × (leases (v.asking ++ v.storing) nothing_open ≡ nothing_open)
handle_tis_lem_example = handle_tis_lem reliable judging 200 0 alone a_client begin ended handle_run
