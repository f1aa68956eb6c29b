-- ===== src/ClientInfo.antt =====
-- common/client_info.cpp: the requests in flight, and the map from serial numbers to them. A client
-- is named by its address, and 0 is null.
use thirft_proxy.Prelude.{
  ℕ, ◌+◌, ◌%◌, ◌^◌, ◌≡◌, refl, Option, List, [], ◌∷◌, arith, ◌==◌, if◌then◌else◌,
}
use thirft_proxy.CmdHandler.{Func}

-- `fd_list_node` and `event` are kept with the lists, in the `Store`. `buf` maps offsets to bytes.
pub record ClientInfo : Type 0 where
  pub cli_fd : ℕ
  pub cli_seq : ℕ
  pub cli_cmd : ℕ
  pub userid : ℕ
  pub ser_seq : ℕ
  pub len : ℕ
  pub proc_time : ℕ
  pub buf : ℕ → ℕ
  pub call_back_func : Option Func

abbrev pub Clients : Type 0
Clients = ℕ → ClientInfo

abbrev pub set_client : ℕ → ClientInfo → Clients → Clients
set_client ci v cs a = if ci == a then v else cs a

abbrev pub InfoMap : Type 0
InfoMap = List (ℕ × ℕ)

-- The static members, and the memory of the clients.
pub record Registry : Type 0 where
  pub client_info_map : InfoMap
  pub serialized_no : ℕ
  pub clients : Clients

-- The number, and the counter after it: a `uint32_t`.
unfoldable pub get_serialize_no : ℕ → ℕ × ℕ
get_serialize_no n = (n, (n + 1) % 2 ^ 32)

-- `client_info_map[sn]`, null when there is no such entry.
unfoldable pub lookup_sn : ℕ → InfoMap → ℕ
lookup_sn sn [] = 0
lookup_sn sn ((key, ci) ∷ m) = if key == sn then ci else lookup_sn sn m

unfoldable pub get_client_info : ℕ → Registry → ℕ
unfolding lookup_sn
get_client_info sn r = lookup_sn sn r.client_info_map

-- `client_info_map[sn] = ci` and `erase(sn)`: a map has one entry for a key.
unfoldable pub erase_sn : ℕ → InfoMap → InfoMap
erase_sn sn [] = []
erase_sn sn ((key, ci) ∷ m) = if key == sn then erase_sn sn m else (key, ci) ∷ erase_sn sn m

unfoldable pub assign_sn : ℕ → ℕ → InfoMap → InfoMap
unfolding erase_sn
assign_sn sn ci m = (sn, ci) ∷ erase_sn sn m

unfoldable pub set_client_info : ℕ → Registry → ℕ × Registry
unfolding get_serialize_no assign_sn
set_client_info ci r =
    let (sn, next) = get_serialize_no r.serialized_no in
    (
      sn,
      record {
        client_info_map = assign_sn sn ci r.client_info_map;
        serialized_no = next;
        clients = set_client ci (record (r.clients ci) { ser_seq = sn }) r.clients;
      },
    )

unfoldable pub remove_client_info : ℕ → Registry → Registry
unfolding erase_sn
remove_client_info sn r = record r { client_info_map = erase_sn sn r.client_info_map }

pub lookup-erase_sn :
    (sn other : ℕ) (m : InfoMap)
    → lookup_sn other (erase_sn sn m) ≡ (if sn == other then 0 else lookup_sn other m)
unfolding lookup_sn erase_sn
lookup-erase_sn sn other [] = ground arith
lookup-erase_sn sn other ((key, ci) ∷ m) = ground (arith, lookup-erase_sn sn other m)

-- A removed client is no longer found, and every other one is found as before.
pub get-remove_client_info :
    (sn other : ℕ) (r : Registry)
    → get_client_info other (remove_client_info sn r)
      ≡ (if sn == other then 0 else get_client_info other r)
unfolding get_client_info remove_client_info
get-remove_client_info sn other r = lookup-erase_sn sn other r.client_info_map

-- A client that is entered gets the counter's number, knows it, and is found under it; under every
-- other number the same client is found as before.
pub get-set_client_info :
    (ci other : ℕ) (r : Registry)
    → let (sn, q) = set_client_info ci r in
      (sn ≡ r.serialized_no)
      × ((q.clients ci).ser_seq ≡ sn)
      × (get_client_info other q ≡ (if sn == other then ci else get_client_info other r))
unfolding get_client_info set_client_info lookup_sn
get-set_client_info ci other r =
    (refl, ground arith, ground (arith, lookup-erase_sn r.serialized_no other r.client_info_map))
