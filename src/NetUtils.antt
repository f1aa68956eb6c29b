-- ===== src/NetUtils.antt =====
-- utils/net_utils.cpp: the list of addresses in a setting.
use thirft_proxy.Prelude.{
  ℕ, ◌≡◌, refl, Bool, true, false, Option, none, some, List, [], ◌∷◌, ◌++◌, ◌==◌, if◌then◌else◌,
}
use thirft_proxy.Text.{Bytes, atoi}
pub mod Addresses

abbrev longer_field : ℕ → Bytes × Option Bytes → Bytes × Option Bytes
longer_field c (t, rest) = (c ∷ t, rest)

-- `find` and the two `substr`: what stands before the first `mark`, and what stands behind it.
unfoldable pub split_at : ℕ → Bytes → Bytes × Option Bytes
split_at mark [] = ([], none)
split_at mark (c ∷ s) =
    let rest = split_at mark s in if c == mark then ([], some s) else longer_field c rest

abbrev longer_first : ℕ → List Bytes → List Bytes
longer_first c [] = (c ∷ []) ∷ []
longer_first c (l ∷ ls) = (c ∷ l) ∷ ls

-- What `getline` takes from the stream, one `;` after the other.
unfoldable pub getlines : Bytes → List Bytes
getlines [] = []
getlines (c ∷ s) = let rest = getlines s in if c == b';' then [] ∷ rest else longer_first c rest

abbrev pub Address : Type 0
Address = Bytes × ℕ

abbrev push_address : Bytes × Option Bytes → List Address → List Address
push_address (ip, none) rest = rest
push_address (ip, some port) rest = (ip, atoi port) ∷ rest

unfoldable pub addresses_of : List Bytes → List Address
unfolding split_at
addresses_of [] = []
addresses_of (l ∷ ls) = push_address (split_at b':' l) (addresses_of ls)

-- A part with no `:` is left out.
unfoldable pub string_to_ip_port_pairs : Bytes → List Address
unfolding addresses_of getlines
string_to_ip_port_pairs addrs = addresses_of (getlines addrs)
