-- ===== src/Server.antt =====
-- common/server.cpp: the functions that the server framework calls. The last work process runs
-- `Control`, the others run `Proxy`.
use thirft_proxy.Prelude.{
  Outcome, done, fault, ℕ, ◌+◌, ◌-◌, ◌%◌, ◌^◌, Bool, true, false, Option, none, some, List, [], ◌∷◌,
  ◌==◌, ltb, if◌then◌else◌,
}
use thirft_proxy.Proto.{read_le}
pub mod Channel

pub data ProcessType : Type 0 where
  proc_main proc_conn proc_work : ProcessType

pub data Role : Type 0 where
  proxy control : Role

-- `get_work_idx() == get_work_num() - 1` on `uint32_t`.
unfoldable pub role_of : (work_idx work_num : ℕ) → Role
role_of work_idx work_num =
    if work_idx == (work_num + (2 ^ 32 - 1)) % 2 ^ 32 then control else proxy

-- The answer of `plugin_init`, 0 or -1, and the pointer `main`. `room` says whether there is memory
-- for the object, and `init` whether its `Init` answers 0.
abbrev start_main : Role → (Role → Bool) → Bool → Bool × Option Role
start_main role init false = (false, none)
start_main role init true = (init role, some role)

unfoldable pub plugin_init :
    ProcessType
    → (work_idx work_num : ℕ) → (room : Bool) → (Role → Bool)
    → Option Role
    → Bool × Option Role
unfolding role_of
plugin_init proc_main work_idx work_num room init main = (true, main)
plugin_init proc_conn work_idx work_num room init main = (true, main)
plugin_init proc_work work_idx work_num room init main =
    start_main (role_of work_idx work_num) init room

-- `main` after `plugin_fini`, and the object whose `Uninit` it called.
unfoldable pub plugin_fini : Option Role → Option Role × Option Role
plugin_fini main = (none, main)

-- The length that a packet claims, once its first word is there.
unfoldable pub get_pkg_len_cli : (ℕ → ℕ) → ℕ → ℕ
unfolding read_le
get_pkg_len_cli buf len = if ltb len 4 then 0 else read_le 4 0 buf

-- The work process for a packet, and the static counter after it. The remainder is by the number of
-- processes less one; the counter is an `int`, kept as its bits, and past the largest one it
-- overflows.
unfoldable pub select_channel : (work_num serialize_num : ℕ) → Outcome (ℕ × ℕ)
select_channel work_num n =
    let workers = (work_num + (2 ^ 32 - 1)) % 2 ^ 32 in
    if workers == 0
    then fault
    else if n + 1 == 2 ^ 31
    then fault
    else done (n % workers, (n + 1) % 2 ^ 32)

-- An entry point that uses `main` without a test: a null pointer unless `plugin_init` made an object.
module _ {S : Type 0} where
  unfoldable pub dispatch : (Role → S → Outcome S) → Option Role → S → Outcome S
  dispatch method none s = fault
  dispatch method (some role) s = method role s
