-- ===== src/Tests/Packets.antt =====
-- proto/proto.h, handler/cmd_handler.cpp and common/client_info.cpp on small data.
use thirft_proxy.Prelude.{
  ℕ, ◌≡◌, ◌≢◌, refl, Option, none, some, [], ◌∷◌, ◌++◌, arith, length, ◌==◌, if◌then◌else◌,
}
use thirft_proxy.Proto.{ProtoHeader, header_size, read_header, write_header}
use thirft_proxy.Proto.RoundTrip.{buffer, read_header-write_header}
use thirft_proxy.CmdHandler.{
  Func, tis_proto_handler, default_proto_handler, find_cmd, register_cmd, get_handler,
  get_handler-register_cmd,
}
use thirft_proxy.ClientInfo.{
  ClientInfo, Registry, get_client_info, set_client_info, remove_client_info,
  get-remove_client_info, get-set_client_info,
}

abbrev header : ProtoHeader
header = record { pkg_len = 18; seq_num = 7; cmd_id = 0x4702; status_code = 0; user_id = 70000 }

read_header-write_header_example :
    (read_header (buffer (λ i. 255) (write_header header ++ 1 ∷ [])) ≡ header)
    × (length (write_header header) ≡ header_size)
read_header-write_header_example =
    read_header-write_header header (1 ∷ []) (λ i. 255)
      (record {
        pkg_len_word = omega arith;
        seq_num_word = omega arith;
        cmd_id_half = omega arith;
        status_code_word = omega arith;
        user_id_word = omega arith;
      })

handler_run :
    get_handler 0x4702 (register_cmd 0x4702 (some tis_proto_handler) []) ≡ tis_proto_handler
unfolding get_handler register_cmd
handler_run = refl

abbrev idle_client : ClientInfo
idle_client = record {
  cli_fd = 0;
  cli_seq = 0;
  cli_cmd = 0;
  userid = 0;
  ser_seq = 0;
  len = 0;
  proc_time = 0;
  buf = λ i. 0;
  call_back_func = none;
}

abbrev registry : Registry
registry = record {
  client_info_map = (4, 1008) ∷ [];
  serialized_no = 5;
  clients = λ a. idle_client;
}

get-set_client_info_run :
    let (sn, q) = set_client_info 1024 registry in
    (sn ≡ 5)
    × ((q.clients 1024).ser_seq ≡ sn)
    × (get_client_info 4 q ≡ (if sn == 4 then 1024 else get_client_info 4 registry))
get-set_client_info_run = get-set_client_info 1024 4 registry

get-remove_client_info_run : get_client_info 4 (remove_client_info 4 registry) ≡ 0
get-remove_client_info_run = get-remove_client_info 4 4 registry

get_handler-register_cmd_run :
    ((find_cmd 5 [] ≡ none) → get_handler 5 (register_cmd 5 none []) ≡ default_proto_handler)
    × ((old : Option Func) → find_cmd 5 [] ≡ some old → register_cmd 5 none [] ≡ [])
    × (◌≢◌ {A = ℕ} 5 6 → get_handler 6 (register_cmd 5 none []) ≡ get_handler 6 [])
get_handler-register_cmd_run = get_handler-register_cmd 5 6 none []
