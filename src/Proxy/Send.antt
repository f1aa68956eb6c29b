-- ===== src/Proxy/Send.antt =====
-- The other `SendToClient` of base/proxy.cpp, which answers a client with a body. Its packet is put
-- together in a buffer of 8192 bytes: a body that does not fit is written out of bounds.
use thirft_proxy.Prelude.{Outcome, done, fault, ℕ, ◌+◌, List, ◌++◌, length, ltb, if◌then◌else◌}
use thirft_proxy.ClientInfo.{ClientInfo}
use thirft_proxy.Proto.{header_size, write_header}
use thirft_proxy.Proxy.{Sent}

abbrev pub out_buf_size : ℕ
out_buf_size = 8192

-- The packet's bytes: a header with the client's own numbers, then the body.
abbrev pub packet : ClientInfo → List ℕ → ℕ → List ℕ
packet ci body status_code =
    write_header (record {
      pkg_len = header_size + length body;
      seq_num = ci.cli_seq;
      cmd_id = ci.cli_cmd;
      status_code = status_code;
      user_id = ci.userid;
    })
    ++ body

unfoldable pub send_to_client_body : ClientInfo → List ℕ → ℕ → Outcome Sent
send_to_client_body ci body status_code =
    if ltb out_buf_size (header_size + length body)
    then fault
    else done (record { fd = ci.cli_fd; bytes = packet ci body status_code })
