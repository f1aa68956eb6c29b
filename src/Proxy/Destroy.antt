-- ===== src/Proxy/Destroy.antt =====
-- What `DestroyClient` does to the lists, for a client that is on the timer's list, or that the
-- timer has just taken from it.
use mathlib.Core.List.{map-append}
use thirft_proxy.Prelude.{
  ℕ, ◌<◌, ◌≡◌, ◌≢◌, sym, subst, ◌∙◌, ap, ◌⊎◌, inl, inr, List, [], ◌∷◌, ◌++◌, map, arith, NotIn, All,
  Bool-cases, ◌==◌,
}
use thirft_proxy.ListHead.{Links, list_del_init}
use thirft_proxy.ListHead.Ring.{IsRing}
use thirft_proxy.ListHead.Remove.{list_del_init-IsRing, list_del_init_alone}
use thirft_proxy.ListHead.Frame.{SameOutside, Disjoint, IsRing-frame, list_del_init-SameOutside}
use thirft_proxy.Proxy.{fd_node, timer_node, fd_head, net_timer}
use thirft_proxy.Proxy.Invariant.{In, remove_one}
use thirft_proxy.Proxy.Cells.{
  timer_node-NotIn-fds, timers_Disjoint_fds, fds_Disjoint_timers, fds_Disjoint_fds, In-split,
  remove_one-NotIn,
}

abbrev IsAt : Links → ℕ → List ℕ → Type 0
IsAt l fd xs = IsRing l (fd_head fd) (map fd_node xs)

-- The client is on the timer's list, and `us` are the others, or it is on no timer's list.
abbrev pub TimerSide : Links → List ℕ → ℕ → Type 0
TimerSide l us c =
    ((t1 t2 : List ℕ) × IsRing l net_timer (map timer_node (t1 ++ c ∷ t2)) × (us ≡ t1 ++ t2))
    ⊎ (IsRing l net_timer (map timer_node us) × IsRing l (timer_node c) [])

nothing_Disjoint : (xs : List ℕ) → Disjoint xs []
nothing_Disjoint [] = tt
nothing_Disjoint (x ∷ xs) = (tt, nothing_Disjoint xs)

module _ (fd_of : ℕ → ℕ) (fds : ℕ → List ℕ) (max : ℕ)
    (own : (fd : ℕ) → fd < max → All (λ c. fd_of c ≡ fd) (fds fd)) where
  other_fd : (c fd : ℕ) (ys : List ℕ) → All (λ c. fd_of c ≡ fd) ys → fd_of c ≢ fd → NotIn c ys
  other_fd c fd [] a h = tt
  other_fd c fd (y ∷ ys) a h = ((λ e. h (ap fd_of e ∙ a.0)), other_fd c fd ys a.1 h)

  module _ (l : Links) (rings : (fd : ℕ) → fd < max → IsAt l fd (fds fd)) (c : ℕ)
      (small : fd_of c < max) (on : In c (fds (fd_of c))) where
    -- The descriptor's list in three parts.
    split-IsRing :
        (a b : List ℕ)
        → fds (fd_of c) ≡ a ++ c ∷ b
        → IsRing l (fd_head (fd_of c)) (map fd_node a ++ fd_node c ∷ map fd_node b)
    split-IsRing a b e =
        subst (IsRing l (fd_head (fd_of c))) (ap (map fd_node) e ∙ map-append fd_node a (c ∷ b))
          (rings (fd_of c) small)

    del_fd_SameOutside :
        SameOutside
          (fd_head (fd_of c) ∷ map fd_node (fds (fd_of c)))
          l
          (list_del_init (fd_node c) l)
    del_fd_SameOutside =
        let (a, b, e, q) = In-split c (fds (fd_of c)) on in
        subst (λ xs. SameOutside (fd_head (fd_of c) ∷ xs) l (list_del_init (fd_node c) l))
          (sym (ap (map fd_node) e ∙ map-append fd_node a (c ∷ b)))
          (list_del_init-SameOutside l (fd_head (fd_of c)) (map fd_node a) (fd_node c)
            (map fd_node b) (split-IsRing a b e))

    del_fd_own : IsAt (list_del_init (fd_node c) l) (fd_of c) (remove_one c (fds (fd_of c)))
    del_fd_own =
        let (a, b, e, q) = In-split c (fds (fd_of c)) on in
        subst (IsRing (list_del_init (fd_node c) l) (fd_head (fd_of c)))
          (sym (ap (map fd_node) q ∙ map-append fd_node a b))
          (list_del_init-IsRing l (fd_head (fd_of c)) (map fd_node a) (fd_node c) (map fd_node b)
            (split-IsRing a b e)).0

    -- `list_del_init(&ci->fd_list_node)` takes the client out of its descriptor's list alone.
    pub del_fd_rings :
        (fd : ℕ) → fd < max → IsAt (list_del_init (fd_node c) l) fd (remove_one c (fds fd))
    del_fd_rings fd h = elim (Bool-cases (fd == fd_of c)) [
      | inl e ↦
          let same : fd_of c ≡ fd = ground (arith, e) in
          subst (λ k. IsAt (list_del_init (fd_node c) l) k (remove_one c (fds k))) same del_fd_own
      | inr e ↦
          let ne : fd ≢ fd_of c = ground (arith, e) in
          rw (remove_one-NotIn c (fds fd) (other_fd c fd (fds fd) (own fd h) (λ q. ne (sym q)))) (
            IsRing-frame l _ _ (fd_head fd) (map fd_node (fds fd)) del_fd_SameOutside
              (fds_Disjoint_fds fd_of fd (fd_of c) (fds fd) (fds (fd_of c)) (own fd h)
                (own (fd_of c) small) ne)
              (rings fd h))
    ]

    pub del_fd_TimerSide :
        (us : List ℕ) → TimerSide l us c → TimerSide (list_del_init (fd_node c) l) us c
    del_fd_TimerSide us (inl (t1, t2, r, e)) = inl (
      t1,
      t2,
      IsRing-frame l _ _ net_timer _ del_fd_SameOutside
          (timers_Disjoint_fds (t1 ++ c ∷ t2) (fd_of c) (fds (fd_of c))) r,
      e,
    )
    del_fd_TimerSide us (inr (r, alone)) = inr (
      IsRing-frame l _ _ net_timer _ del_fd_SameOutside
          (timers_Disjoint_fds us (fd_of c) (fds (fd_of c))) r,
      IsRing-frame l _ (fd_head (fd_of c) ∷ map fd_node (fds (fd_of c))) (timer_node c) []
          del_fd_SameOutside (((λ e. omega (arith, e)), timer_node-NotIn-fds c (fds (fd_of c))), tt)
          alone,
    )

-- `timer_del_event` leaves the others on the timer's list, and the descriptors' lists as they are.
pub del_timer_rings :
    (max : ℕ) (l : Links) (fds : ℕ → List ℕ) (us : List ℕ) (c : ℕ)
    → ((fd : ℕ) → fd < max → IsAt l fd (fds fd))
    → TimerSide l us c
    → IsRing (list_del_init (timer_node c) l) net_timer (map timer_node us)
      × ((fd : ℕ) → fd < max → IsAt (list_del_init (timer_node c) l) fd (fds fd))
del_timer_rings max l fds us c rings (inl (t1, t2, r, e)) =
    let cells = map-append timer_node t1 (c ∷ t2) in
    let ring : IsRing l net_timer (map timer_node t1 ++ timer_node c ∷ map timer_node t2) =
      subst (IsRing l net_timer) cells r in
    (
      subst (IsRing (list_del_init (timer_node c) l) net_timer)
          (sym (ap (map timer_node) e ∙ map-append timer_node t1 t2))
          (list_del_init-IsRing l net_timer (map timer_node t1) (timer_node c) (map timer_node t2)
            ring).0,
      λ fd h.
          IsRing-frame l _ (net_timer ∷ map timer_node (t1 ++ c ∷ t2)) (fd_head fd)
            (map fd_node (fds fd))
            (subst (λ xs. SameOutside (net_timer ∷ xs) l (list_del_init (timer_node c) l))
              (sym cells)
              (list_del_init-SameOutside l net_timer (map timer_node t1) (timer_node c)
                (map timer_node t2) ring))
            (fds_Disjoint_timers fd (fds fd) (t1 ++ c ∷ t2)) (rings fd h),
    )
del_timer_rings max l fds us c rings (inr (r, alone)) =
    let same : SameOutside [] l (list_del_init (timer_node c) l) =
      λ a h. list_del_init_alone l (timer_node c) a alone in
    (
      IsRing-frame l _ [] net_timer _ same (nothing_Disjoint (net_timer ∷ map timer_node us)) r,
      λ fd h.
          IsRing-frame l _ [] (fd_head fd) _ same
            (nothing_Disjoint (fd_head fd ∷ map fd_node (fds fd))) (rings fd h),
    )
