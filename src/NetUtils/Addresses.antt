-- ===== src/NetUtils/Addresses.antt =====
-- Addresses that are written as text are read back.
use thirft_proxy.Prelude.{
  ℕ, ◌^◌, ◌≤◌, ◌<◌, ◌≡◌, refl, ap, ◌≢◌, All, All-append, some, List, [], ◌∷◌, ◌++◌, arith,
}
use thirft_proxy.Text.{Bytes}
use thirft_proxy.Text.Decimal.{digits-IsDigit, atoi-digits_lem}
use thirft_proxy.Handler.Text.{digits}
use thirft_proxy.NetUtils.{Address, split_at, getlines, addresses_of, string_to_ip_port_pairs}

-- `ip:port`, with a `;` behind each.
pub print_addresses : List Address → Bytes
print_addresses [] = []
print_addresses ((ip, port) ∷ rest) = (ip ++ b':' ∷ digits 10 port) ++ b';' ∷ print_addresses rest

abbrev pub IsAddress : Address → Type 0
IsAddress (ip, port) = All (λ c. (c ≢ b';') × (c ≢ b':')) ip × (port < 2 ^ 32)

abbrev IsPart : Bytes → Type 0
IsPart = All (λ c. c ≢ b';')

getlines-part : (s rest : Bytes) → IsPart s → getlines (s ++ b';' ∷ rest) ≡ s ∷ getlines rest
unfolding getlines
getlines-part [] rest h = refl
getlines-part (c ∷ s) rest h = ground (arith, getlines-part s rest h.1, h.0)

split_at-part :
    (mark : ℕ) (s t : Bytes) → All (λ c. c ≢ mark) s → split_at mark (s ++ mark ∷ t) ≡ (s, some t)
unfolding split_at
split_at-part mark [] t h = ground arith
split_at-part mark (c ∷ s) t h = ground (arith, split_at-part mark s t h.1, h.0)

digits-IsPart : (s : Bytes) → All (λ c. (b'0' ≤ c) × (c ≤ b'9')) s → IsPart s
digits-IsPart [] h = tt
digits-IsPart (c ∷ s) h = (ground (arith, h.0), digits-IsPart s h.1)

ip-IsPart : (s : Bytes) → All (λ c. (c ≢ b';') × (c ≢ b':')) s → IsPart s
ip-IsPart [] h = tt
ip-IsPart (c ∷ s) h = (h.0.0, ip-IsPart s h.1)

plain_lem : (s : Bytes) → All (λ c. (c ≢ b';') × (c ≢ b':')) s → All (λ c. c ≢ b':') s
plain_lem [] h = tt
plain_lem (c ∷ s) h = (h.0.1, plain_lem s h.1)

address-IsPart :
    (ip : Bytes) (port : ℕ) → IsAddress (ip, port) → IsPart (ip ++ b':' ∷ digits 10 port)
address-IsPart ip port h =
    All-append (λ c. c ≢ b';') ip (b':' ∷ digits 10 port) (ip-IsPart ip h.0)
      (ground arith, digits-IsPart (digits 10 port) (digits-IsDigit 10 port))

-- Addresses with ports in decimal, one after the other with a `;` behind each, are read back.
pub string_to_ip_port_pairs-print_addresses :
    (l : List Address) → All IsAddress l → string_to_ip_port_pairs (print_addresses l) ≡ l
unfolding string_to_ip_port_pairs addresses_of print_addresses getlines
string_to_ip_port_pairs-print_addresses [] h = refl
string_to_ip_port_pairs-print_addresses ((ip, port) ∷ l) h =
    rw
      (
        getlines-part (ip ++ b':' ∷ digits 10 port) (print_addresses l)
            (address-IsPart ip port h.0),
        split_at-part b':' ip (digits 10 port) (plain_lem ip h.0.0),
        atoi-digits_lem port h.0.1,
      )
      (ap (λ rest. (ip, port) ∷ rest) (string_to_ip_port_pairs-print_addresses l h.1))
