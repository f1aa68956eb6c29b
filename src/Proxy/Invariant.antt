-- ===== src/Proxy/Invariant.antt =====
-- The invariant of the life cycle. `ts` are the clients in the timer's order, `fds fd` those of a
-- descriptor in the order of their arrival.
use thirft_proxy.Prelude.{ℕ, ◌≡◌, ◌≢◌, ◌<◌, ◌⊎◌, some, List, [], ◌∷◌, map, All, ◌==◌, if◌then◌else◌}
use thirft_proxy.ListHead.Ring.{IsRing}
use thirft_proxy.ClientInfo.{get_client_info}
use thirft_proxy.Proxy.{State, fd_node, timer_node, fd_head, net_timer, client, do_server_timeout}

abbrev pub In : ℕ → List ℕ → Type 0
In a [] = ⊥
In a (x ∷ xs) = (a ≡ x) ⊎ In a xs

-- The list without the first `a`.
unfoldable pub remove_one : ℕ → List ℕ → List ℕ
remove_one a [] = []
remove_one a (x ∷ xs) = if a == x then xs else x ∷ remove_one a xs

-- A client that is found under its number, is in its descriptor's list, and has a timeout.
pub record InUse (s : State) (fds : ℕ → List ℕ) (c : ℕ) : Type 0 where
  pub ne_null : c ≢ 0
  pub in_bounds : (client c s).cli_fd < s.extra.max_open_fd
  pub found : get_client_info (client c s).ser_seq s.extra.registry ≡ c
  pub on_fd : In c (fds (client c s).cli_fd)
  pub timed : (s.events (timer_node c)).func ≡ some do_server_timeout
  pub owned : (s.events (timer_node c)).owner ≡ c

-- What holds of the descriptors' lists.
pub record IsFds (s : State) (fds : ℕ → List ℕ) : Type 0 where
  pub ring :
      (fd : ℕ) → fd < s.extra.max_open_fd → IsRing s.links (fd_head fd) (map fd_node (fds fd))
  pub own : (fd : ℕ) → fd < s.extra.max_open_fd → All (λ c. (client c s).cli_fd ≡ fd) (fds fd)

pub record IsProxy (s : State) (ts : List ℕ) (fds : ℕ → List ℕ) : Type 0 where
  pub timer_ring : IsRing s.links net_timer (map timer_node ts)
  pub on_fds : IsFds s fds
  pub in_use : All (InUse s fds) ts
  pub on_timer : (fd : ℕ) → fd < s.extra.max_open_fd → All (λ c. In c ts) (fds fd)
  pub known :
      (sn : ℕ)
      → get_client_info sn s.extra.registry ≢ 0
      → let c = get_client_info sn s.extra.registry in In c ts × ((client c s).ser_seq ≡ sn)
