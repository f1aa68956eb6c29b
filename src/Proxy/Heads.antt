-- ===== src/Proxy/Heads.antt =====
-- The loop of `InitFdList` makes each list head a list of its own.
use thirft_proxy.Prelude.{
  ℕ, zero, suc, ◌+◌, ◌≤◌, ◌<◌, ◌≡◌, [], arith, ◌==◌, Bool-cases, ==_iff, subst, sym, inl, inr,
}
use thirft_proxy.ListHead.{Links, init_list_head}
use thirft_proxy.ListHead.Ring.{IsRing}
use thirft_proxy.Proxy.{fd_head}
use thirft_proxy.Proxy.Start.{init_fd_loop}

-- The cell is a list of its own.
abbrev pub IsAlone : Links → ℕ → Type 0
IsAlone l c = (l.next c ≡ c) × (l.prev c ≡ c)

pub init_list_head-IsAlone : (p c : ℕ) (l : Links) → IsAlone l c → IsAlone (init_list_head p l) c
unfolding init_list_head
init_list_head-IsAlone p c l h = (ground (arith, h.0), ground (arith, h.1))

pub init_list_head_self : (p : ℕ) (l : Links) → IsAlone (init_list_head p l) p
unfolding init_list_head
init_list_head_self p l = (ground arith, ground arith)

init_fd_loop-IsAlone : (n fd c : ℕ) (l : Links) → IsAlone l c → IsAlone (init_fd_loop n fd l) c
unfolding init_fd_loop
init_fd_loop-IsAlone zero fd c l h = h
init_fd_loop-IsAlone (suc n) fd c l h =
    init_fd_loop-IsAlone n (fd + 1) c (init_list_head (fd_head fd) l)
      (init_list_head-IsAlone (fd_head fd) c l h)

pub init_fd_loop_lem :
    (n fd i : ℕ) (l : Links) → fd ≤ i → i < fd + n → IsAlone (init_fd_loop n fd l) (fd_head i)
unfolding init_fd_loop
init_fd_loop_lem zero fd i l le lt = absurd (omega arith)
init_fd_loop_lem (suc n) fd i l le lt = elim (Bool-cases (fd == i)) [
  | inl here ↦ init_fd_loop-IsAlone n (fd + 1) (fd_head i) (init_list_head (fd_head fd) l) (
      subst (λ x. IsAlone (init_list_head (fd_head x) l) (fd_head i)) (sym ((==_iff fd i).0 here))
        (init_list_head_self (fd_head i) l))
  | inr later ↦
      init_fd_loop_lem n (fd + 1) i (init_list_head (fd_head fd) l) (ground arith) (omega arith)
]

pub IsAlone-IsRing : (l : Links) (c : ℕ) → IsAlone l c → IsRing l c []
IsAlone-IsRing l c h = record { chain = h; distinct = (tt, tt) }
