-- ===== src/Proto.antt =====
-- proto/proto.h: the packed header of a packet, little-endian, at the front of a buffer. A buffer
-- is a function from offsets to bytes, since C++ reads it with no bound.
use thirft_proxy.Prelude.{ℕ, zero, suc, ◌+◌, ◌*◌, ◌/◌, ◌%◌, ◌^◌, List, [], ◌∷◌, ◌++◌}
pub mod RoundTrip

pub record ProtoHeader : Type 0 where
  pub pkg_len : ℕ
  pub seq_num : ℕ
  pub cmd_id : ℕ
  pub status_code : ℕ
  pub user_id : ℕ

abbrev pub header_size : ℕ
header_size = 18

-- The unsigned number in the `n` bytes at `off`.
unfoldable pub read_le : ℕ → ℕ → (ℕ → ℕ) → ℕ
read_le zero off buf = 0
read_le (suc n) off buf = buf off + 256 * read_le n (off + 1) buf

unfoldable pub read_header : (ℕ → ℕ) → ProtoHeader
unfolding read_le
read_header buf = record {
  pkg_len = read_le 4 0 buf;
  seq_num = read_le 4 4 buf;
  cmd_id = read_le 2 8 buf;
  status_code = read_le 4 10 buf;
  user_id = read_le 4 14 buf;
}

-- The `n` bytes of a number, lowest first.
unfoldable pub write_le : ℕ → ℕ → List ℕ
write_le zero v = []
write_le (suc n) v = v % 256 ∷ write_le n (v / 256)

unfoldable pub write_header : ProtoHeader → List ℕ
unfolding write_le
write_header h =
    write_le 4 h.pkg_len
    ++ (write_le 4 h.seq_num
        ++ (write_le 2 h.cmd_id ++ (write_le 4 h.status_code ++ write_le 4 h.user_id)))
