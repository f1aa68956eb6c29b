-- ===== src/Proto/RoundTrip.antt =====
-- A header that is written is read back.
use thirft_proxy.Prelude.{
  ℕ, ◌+◌, ◌*◌, ◌/◌, ◌%◌, ◌^◌, ◌<◌, ◌≡◌, refl, List, ◌++◌, get_elem?, Option, none, some, arith,
  length,
}
use thirft_proxy.Proto.{ProtoHeader, header_size, read_header, write_header}

-- A list of bytes as a buffer; what lies behind it is unknown.
abbrev pub or_unknown : ℕ → Option ℕ → ℕ
or_unknown u none = u
or_unknown u (some b) = b

abbrev pub buffer : (ℕ → ℕ) → List ℕ → ℕ → ℕ
buffer behind bytes i = or_unknown (behind i) (get_elem? bytes i)

pub record InRange (h : ProtoHeader) : Type 0 where
  pub pkg_len_word : h.pkg_len < 2 ^ 32
  pub seq_num_word : h.seq_num < 2 ^ 32
  pub cmd_id_half : h.cmd_id < 2 ^ 16
  pub status_code_word : h.status_code < 2 ^ 32
  pub user_id_word : h.user_id < 2 ^ 32

word_digits :
    (n : ℕ)
    → n < 2 ^ 32
    → n % 256
        + 256
          * (n / 256 % 256
              + 256 * (n / 256 / 256 % 256 + 256 * (n / 256 / 256 / 256 % 256 + 256 * 0)))
      ≡ n
word_digits n h = omega arith

half_digits : (n : ℕ) → n < 2 ^ 16 → n % 256 + 256 * (n / 256 % 256 + 256 * 0) ≡ n
half_digits n h = omega arith

-- Reading the header of a packet gives back the fields that were written, whatever follows them, and
-- the header takes `header_size` bytes.
pub read_header-write_header :
    (h : ProtoHeader) (body : List ℕ) (behind : ℕ → ℕ)
    → InRange h
    → (read_header (buffer behind (write_header h ++ body)) ≡ h)
      × (length (write_header h) ≡ header_size)
unfolding read_header write_header
read_header-write_header h body behind v = (
  λ i. record {
    pkg_len = word_digits h.pkg_len v.pkg_len_word i;
    seq_num = word_digits h.seq_num v.seq_num_word i;
    cmd_id = half_digits h.cmd_id v.cmd_id_half i;
    status_code = word_digits h.status_code v.status_code_word i;
    user_id = word_digits h.user_id v.user_id_word i;
  },
  refl,
)
