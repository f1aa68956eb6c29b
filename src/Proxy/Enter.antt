-- ===== src/Proxy/Enter.antt =====
-- The lists when a client enters: it becomes the last of the timer's list and of its descriptor's.
use mathlib.Core.List.{map-append}
use thirft_proxy.Prelude.{
  ℕ, ◌≡◌, ◌≢◌, sym, subst, List, [], ◌∷◌, ◌++◌, map, arith, NotIn, All, ◌==◌, if◌then◌else◌,
}
use thirft_proxy.ListHead.{Links, list_add_tail, init_list_head}
use thirft_proxy.ListHead.Ring.{IsRing}
use thirft_proxy.ListHead.Insert.{list_add_tail-IsRing}
use thirft_proxy.ListHead.Frame.{
  SameOutside, Disjoint, IsRing-frame, list_add_tail-SameOutside, init_list_head-SameOutside,
}
use thirft_proxy.Proxy.{fd_node, timer_node, fd_head, net_timer}
use thirft_proxy.Proxy.Cells.{timers_Disjoint_fds, fds_Disjoint_timers, fds_Disjoint_fds}

-- `ci` arrives on the descriptor `fd`.
abbrev pub arrive : ℕ → ℕ → (ℕ → List ℕ) → ℕ → List ℕ
arrive fd ci fds k = if fd == k then fds k ++ ci ∷ [] else fds k

abbrev pub entered : ℕ → ℕ → Links → Links
entered fd ci l =
    list_add_tail (timer_node ci) net_timer
      (list_add_tail (fd_node ci) (fd_head fd) (init_list_head (timer_node ci) l))

pub timer_node-NotIn-timers :
    (c : ℕ) (xs : List ℕ) → NotIn c xs → NotIn (timer_node c) (map timer_node xs)
timer_node-NotIn-timers c [] h = tt
timer_node-NotIn-timers c (x ∷ xs) h =
    ((λ e. h.0 (omega (arith, e))), timer_node-NotIn-timers c xs h.1)

fd_node-NotIn-fds : (c : ℕ) (xs : List ℕ) → NotIn c xs → NotIn (fd_node c) (map fd_node xs)
fd_node-NotIn-fds c [] h = tt
fd_node-NotIn-fds c (x ∷ xs) h = ((λ e. h.0 (omega (arith, e))), fd_node-NotIn-fds c xs h.1)

timers-Disjoint :
    (ci : ℕ) (ts : List ℕ) → NotIn ci ts → Disjoint (map timer_node ts) (timer_node ci ∷ [])
timers-Disjoint ci [] h = tt
timers-Disjoint ci (x ∷ xs) h = (((λ e. h.0 (omega (arith, e))), tt), timers-Disjoint ci xs h.1)

nodes-Disjoint-timer : (ci : ℕ) (xs : List ℕ) → Disjoint (map fd_node xs) (timer_node ci ∷ [])
nodes-Disjoint-timer ci [] = tt
nodes-Disjoint-timer ci (x ∷ xs) = (((λ e. omega (arith, e)), tt), nodes-Disjoint-timer ci xs)

module _ (l : Links) (fds : ℕ → List ℕ) (ts : List ℕ) (fd ci : ℕ) (new : NotIn ci ts)
    (timer : IsRing l net_timer (map timer_node ts)) where
  abbrev l1 : Links
  l1 = init_list_head (timer_node ci) l

  abbrev l2 : Links
  l2 = list_add_tail (fd_node ci) (fd_head fd) l1

  timer1 : IsRing l1 net_timer (map timer_node ts)
  timer1 =
      IsRing-frame l l1 (timer_node ci ∷ []) net_timer (map timer_node ts)
        (init_list_head-SameOutside l (timer_node ci))
        (((λ e. omega (arith, e)), tt), timers-Disjoint ci ts new) timer

  ring1 :
      (k : ℕ)
      → IsRing l (fd_head k) (map fd_node (fds k))
      → IsRing l1 (fd_head k) (map fd_node (fds k))
  ring1 k r =
      IsRing-frame l l1 (timer_node ci ∷ []) (fd_head k) (map fd_node (fds k))
        (init_list_head-SameOutside l (timer_node ci))
        (((λ e. omega (arith, e)), tt), nodes-Disjoint-timer ci (fds k)) r

  module _ (own : IsRing l (fd_head fd) (map fd_node (fds fd))) where
    same2 : SameOutside (fd_head fd ∷ map fd_node (ci ∷ fds fd)) l1 l2
    same2 a h =
        list_add_tail-SameOutside l1 (fd_node ci) (fd_head fd) (map fd_node (fds fd)) (ring1 fd own)
          a (h.1.0, (h.0, h.1.1))

    timer2 : IsRing l2 net_timer (map timer_node ts)
    timer2 =
        IsRing-frame l1 l2 (fd_head fd ∷ map fd_node (ci ∷ fds fd)) net_timer (map timer_node ts)
          same2 (timers_Disjoint_fds ts fd (ci ∷ fds fd)) timer1

    pub entered-timer : IsRing (entered fd ci l) net_timer (map timer_node (ts ++ ci ∷ []))
    entered-timer =
        subst (IsRing (entered fd ci l) net_timer) (sym (map-append timer_node ts (ci ∷ []))) (
          list_add_tail-IsRing l2 (timer_node ci) net_timer (map timer_node ts)
            (λ e. omega (arith, e)) (timer_node-NotIn-timers ci ts new) timer2)

    same3 : SameOutside (net_timer ∷ map timer_node (ci ∷ ts)) l2 (entered fd ci l)
    same3 a h =
        list_add_tail-SameOutside l2 (timer_node ci) net_timer (map timer_node ts) timer2 a
          (h.1.0, (h.0, h.1.1))

    ring3 :
        (k : ℕ) (xs : List ℕ)
        → IsRing l2 (fd_head k) (map fd_node xs)
        → IsRing (entered fd ci l) (fd_head k) (map fd_node xs)
    ring3 k xs r =
        IsRing-frame l2 (entered fd ci l) (net_timer ∷ map timer_node (ci ∷ ts)) (fd_head k)
          (map fd_node xs) same3 (fds_Disjoint_timers k xs (ci ∷ ts)) r

    pub entered-fd :
        NotIn ci (fds fd) → IsRing (entered fd ci l) (fd_head fd) (map fd_node (fds fd ++ ci ∷ []))
    entered-fd n = ring3 fd (fds fd ++ ci ∷ []) (
        subst (IsRing l2 (fd_head fd)) (sym (map-append fd_node (fds fd) (ci ∷ []))) (
          list_add_tail-IsRing l1 (fd_node ci) (fd_head fd) (map fd_node (fds fd))
            (λ e. omega (arith, e)) (fd_node-NotIn-fds ci (fds fd) n) (ring1 fd own)))

    pub entered-others :
        (fd_of : ℕ → ℕ) (k : ℕ)
        → All (λ c. fd_of c ≡ k) (fds k)
        → All (λ c. fd_of c ≡ fd) (ci ∷ fds fd)
        → k ≢ fd
        → IsRing l (fd_head k) (map fd_node (fds k))
        → IsRing (entered fd ci l) (fd_head k) (map fd_node (fds k))
    entered-others fd_of k a b ne r = ring3 k (fds k) (
        IsRing-frame l1 l2 (fd_head fd ∷ map fd_node (ci ∷ fds fd)) (fd_head k)
          (map fd_node (fds k)) same2 (fds_Disjoint_fds fd_of k fd (fds k) (ci ∷ fds fd) a b ne)
          (ring1 k r))
