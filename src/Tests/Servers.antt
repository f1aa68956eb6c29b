-- ===== src/Tests/Servers.antt =====
-- The processes and the log directory on concrete data.
use thirft_proxy.Prelude.{
  done, ℕ, ◌+◌, ◌<◌, ◌≤◌, ◌≡◌, ◌↔◌, ◌⊎◌, refl, true, All, Option, none, some, List, [], ◌∷◌, ◌++◌,
  map, arith,
}
use thirft_proxy.Text.{Bytes, same, atoi, signed, digits_value, is_digit, is_space, positive}
use thirft_proxy.Text.Codes.{codes}
use thirft_proxy.NetUtils.{Address, string_to_ip_port_pairs, addresses_of, getlines, split_at}
use thirft_proxy.NetUtils.Addresses.{
  print_addresses, IsAddress, string_to_ip_port_pairs-print_addresses,
}
use thirft_proxy.ConfigManager.{
  Cm, config_get_intval, config_get_int_val, config_get_strval, config_get_str_val,
}
use thirft_proxy.Config.{find}
use thirft_proxy.Control.{LogProcessor, init, archive_limit, remove_limit, min_int, max_int, lt_int}
use thirft_proxy.Control.Limits.{init-IsOrdered}
use thirft_proxy.Server.{proxy, role_of, select_channel}
use thirft_proxy.Server.Channel.{nth_channel, select_channel-role_of}
use thirft_proxy.LogProcessor.{
  Calendar, DirEntry, regular, do_remove, take_bytes, drop_bytes, files_in, sort_files_to_map,
}
use thirft_proxy.LogProcessor.Remove.{
  is_outdated, outdated, HasDate, do_remove-outdated, do_remove_undated,
}
use thirft_proxy.LogProcessor.Archive.{HasFile, Sorted, sort_files_to_map-HasFile}
use thirft_proxy.Proxy.{State, net_timer, timer_node}
use thirft_proxy.Proxy.Invariant.{IsProxy}
use thirft_proxy.Proxy.Start.{Resources, init_proxy}
use thirft_proxy.Proxy.Begin.{IsGranted, IsConfigured, waiting, init_proxy-IsProxy}
use thirft_proxy.CmdHandler.{get_handler, tis_proto_handler}
use thirft_proxy.ConnectionPool.Registry.{Registry}
use thirft_proxy.Tests.Pools.{reliable}
use thirft_proxy.Tests.Proxies.{one, on, pool, one-IsProxy}
use thirft_proxy.Proxy.Stop.{uninit_proxy, uninit_proxy-IsProxy}
use thirft_proxy.ThreadPool.{make_thread_pool, stop}
use thirft_proxy.ListHead.Ring.{IsRing}
use thirft_proxy.Timer.{cleared}

abbrev addresses : List Address
addresses = (codes "a.", 9090) ∷ (codes "b", 80) ∷ []

addresses-IsAddress : All IsAddress addresses
addresses-IsAddress = (
  (((ground arith, ground arith), ((ground arith, ground arith), tt)), omega arith),
  (((((ground arith, ground arith), tt)), omega arith), tt),
)

string_to_ip_port_pairs-print_addresses_example :
    string_to_ip_port_pairs (print_addresses addresses) ≡ addresses
string_to_ip_port_pairs-print_addresses_example =
    string_to_ip_port_pairs-print_addresses addresses addresses-IsAddress

select_channel-role_of_example :
    ((r : ℕ × ℕ) × ((select_channel 4 9 ≡ done r) × (role_of r.0 4 ≡ proxy)))
    × ((i : ℕ) × ((i + 1 < 4) × (nth_channel i 4 7 ≡ done 2)))
select_channel-role_of_example =
    select_channel-role_of 4 9 7 2 (omega arith) (omega arith) (omega arith) (omega arith)
      (omega arith)

abbrev tidier : LogProcessor
tidier = record { workpath = codes "/log"; archive_days = 7; remove_days = 28; tar_files = [] }

tidier_made : init true none [] ≡ some tidier
unfolding init archive_limit remove_limit min_int max_int lt_int
tidier_made = refl

init-IsOrdered_example :
    ((1 ≤ tidier.archive_days) × (tidier.archive_days ≤ 28))
    × ((tidier.archive_days ≤ tidier.remove_days) × (tidier.remove_days ≤ 168))
init-IsOrdered_example = init-IsOrdered true none [] tidier tidier_made

-- Names in the directory `l`, with a date from the third byte on.
abbrev dated : Bytes → Option (ℕ × ℕ)
dated [] = none
dated (c ∷ []) = none
dated (c ∷ d ∷ []) = none
dated (c ∷ d ∷ e ∷ []) = none
dated (c ∷ d ∷ e ∷ f ∷ s) = some (2, 10)

-- All dates are the first day, and each second starts a day.
abbrev calendar : Calendar
calendar = record { regexec = dated; mktime = λ year month day. 0; day_start = λ t. t }

abbrev old_log : DirEntry
old_log = record { d_name = codes "20200101"; d_type = regular; found = true }

abbrev no_date : DirEntry
no_date = record { d_name = codes "a"; d_type = regular; found = true }

old_log-HasDate : All (HasDate calendar (codes "l")) (old_log ∷ [])
old_log-HasDate = ((λ e. ((2, 10), refl)), tt)

do_remove-outdated_example :
    do_remove calendar 8640000 (codes "l") 28 (some (old_log ∷ []))
    ≡ (0, outdated calendar 8640000 (codes "l") 28 (old_log ∷ []))
do_remove-outdated_example =
    do_remove-outdated calendar 8640000 (codes "l") 28 (old_log ∷ []) old_log-HasDate

old_log_outdated : is_outdated calendar 8640000 (codes "l") 28 old_log ≡ true
unfolding is_outdated take_bytes drop_bytes atoi signed digits_value is_digit is_space positive
old_log_outdated = refl

do_remove_undated_example :
    (before after : List Bytes) × ((do_remove calendar 8640000 (codes "l") 28 (some (no_date ∷ []))
        ≡ (0, before))
      × (do_remove calendar 8640000 (codes "l") 28 (some (no_date ∷ old_log ∷ no_date ∷ []))
          ≡ (0, before ++ codes "20200101" ∷ codes "a" ∷ after)))
do_remove_undated_example =
    do_remove_undated calendar 8640000 (codes "l") 28 (no_date ∷ []) old_log no_date [] refl
      (λ e. ((2, 10), refl)) old_log_outdated refl refl

sort_files_to_map-HasFile_example :
    HasFile 20200101
      (codes "20200101")
      (sort_files_to_map calendar 8640000 7 28 (codes "l") (some (old_log ∷ [])) [])
    ↔ (HasFile 20200101 (codes "20200101") []
        ⊎ Sorted calendar 8640000 7 28 (files_in (some (old_log ∷ []))) 20200101 (codes "20200101"))
sort_files_to_map-HasFile_example =
    sort_files_to_map-HasFile calendar 8640000 7 28 b'l' [] (some (old_log ∷ [])) [] 20200101
      (codes "20200101")

abbrev settings : Cm
settings = some (record {
  config_map =
      (codes "tis_server_addr", codes "a:1") ∷ (codes "dbser_server_addr", codes "b:2;") ∷ [];
  loaded = true;
})

abbrev resources : Resources
resources = record {
  rlim_max = some 1024;
  room = true;
  pagesize = 4096;
  client_size = 4200;
  control_block = 1000;
  block = 100000;
  garbage = 0;
}

resources-IsGranted : IsGranted resources settings
resources-IsGranted = record {
  limit = omega arith;
  room = refl;
  control = ground arith;
  block = ground arith;
}

settings-IsConfigured : IsConfigured reliable (λ ip. "h") settings
unfolding config_get_intval config_get_int_val config_get_strval config_get_str_val find same
    string_to_ip_port_pairs addresses_of getlines split_at atoi signed digits_value is_digit
    is_space positive
settings-IsConfigured = record {
  tis = codes "a:1";
  dbser = codes "b:2;";
  tis_address = (codes "a", 1);
  dbser_address = (codes "b", 2);
  tis_rest = [];
  dbser_rest = [];
  tis_set = refl;
  dbser_set = refl;
  tis_parsed = refl;
  dbser_parsed = refl;
  tis_size = omega arith;
  dbser_size = omega arith;
  threads = omega arith;
}

-- The state `one` without its client.
abbrev fresh : State
fresh = record one {
  extra = record one.extra { registry = record one.extra.registry { client_info_map = [] } };
}

init_proxy-IsProxy_example :
    (t : State × Registry reliable) × ((init_proxy reliable (λ ip. "h") resources settings fresh []
        ≡ done (true, (t, some (waiting, 5))))
      × (IsProxy t.0 [] (λ fd. []) × (get_handler 18178 t.0.extra.cmd_handler ≡ tis_proto_handler)))
unfolding config_get_intval same
init_proxy-IsProxy_example =
    init_proxy-IsProxy reliable (λ ip. "h") resources settings fresh [] resources-IsGranted
      settings-IsConfigured refl

uninit_proxy-IsProxy_run :
    (t : State) × ((uninit_proxy 2 true (some make_thread_pool) one
        ≡ some (done ([], (stop make_thread_pool, t))))
      × (IsRing t.links net_timer []
          × All (λ x. t.events x ≡ cleared) (map timer_node (1008 ∷ []))))
uninit_proxy-IsProxy_run =
    uninit_proxy-IsProxy 2 make_thread_pool one (1008 ∷ []) on pool one-IsProxy refl refl
      (omega arith)
