-- ===== src/Proxy/Cells.antt =====
-- Cells of different lists differ, and lists of clients as lists of cells.
use thirft_proxy.Prelude.{
  ℕ, ◌≡◌, ◌≢◌, refl, sym, ◌∙◌, ap, inl, inr, List, [], ◌∷◌, ◌++◌, map, arith, NotIn, All,
  Bool-cases, ◌==◌, if◌then◌else◌, false,
}
use thirft_proxy.ListHead.Frame.{Disjoint}
use thirft_proxy.Proxy.{fd_node, timer_node, fd_head, net_timer}
use thirft_proxy.Proxy.Invariant.{In, remove_one}

pub timer_node-NotIn-fds : (c : ℕ) (xs : List ℕ) → NotIn (timer_node c) (map fd_node xs)
timer_node-NotIn-fds c [] = tt
timer_node-NotIn-fds c (x ∷ xs) = ((λ e. omega (arith, e)), timer_node-NotIn-fds c xs)

pub fd_node-NotIn-timers : (c : ℕ) (xs : List ℕ) → NotIn (fd_node c) (map timer_node xs)
fd_node-NotIn-timers c [] = tt
fd_node-NotIn-timers c (x ∷ xs) = ((λ e. omega (arith, e)), fd_node-NotIn-timers c xs)

fd_head-NotIn-timers : (fd : ℕ) (xs : List ℕ) → NotIn (fd_head fd) (map timer_node xs)
fd_head-NotIn-timers fd [] = tt
fd_head-NotIn-timers fd (x ∷ xs) = ((λ e. omega (arith, e)), fd_head-NotIn-timers fd xs)

pub fd_head-NotIn-fds : (fd : ℕ) (xs : List ℕ) → NotIn (fd_head fd) (map fd_node xs)
fd_head-NotIn-fds fd [] = tt
fd_head-NotIn-fds fd (x ∷ xs) = ((λ e. omega (arith, e)), fd_head-NotIn-fds fd xs)

net_timer-NotIn-fds : (xs : List ℕ) → NotIn net_timer (map fd_node xs)
net_timer-NotIn-fds [] = tt
net_timer-NotIn-fds (x ∷ xs) = ((λ e. omega (arith, e)), net_timer-NotIn-fds xs)

timers_Disjoint_nodes :
    (us : List ℕ) (fd : ℕ) (xs : List ℕ)
    → Disjoint (map timer_node us) (fd_head fd ∷ map fd_node xs)
timers_Disjoint_nodes [] fd xs = tt
timers_Disjoint_nodes (u ∷ us) fd xs =
    (((λ e. omega (arith, e)), timer_node-NotIn-fds u xs), timers_Disjoint_nodes us fd xs)

-- The timer's list and a descriptor's list share no cell.
pub timers_Disjoint_fds :
    (us : List ℕ) (fd : ℕ) (xs : List ℕ)
    → Disjoint (net_timer ∷ map timer_node us) (fd_head fd ∷ map fd_node xs)
timers_Disjoint_fds us fd xs =
    (((λ e. omega (arith, e)), net_timer-NotIn-fds xs), timers_Disjoint_nodes us fd xs)

nodes_Disjoint_timers : (xs us : List ℕ) → Disjoint (map fd_node xs) (net_timer ∷ map timer_node us)
nodes_Disjoint_timers [] us = tt
nodes_Disjoint_timers (x ∷ xs) us =
    (((λ e. omega (arith, e)), fd_node-NotIn-timers x us), nodes_Disjoint_timers xs us)

pub fds_Disjoint_timers :
    (fd : ℕ) (xs us : List ℕ)
    → Disjoint (fd_head fd ∷ map fd_node xs) (net_timer ∷ map timer_node us)
fds_Disjoint_timers fd xs us =
    (((λ e. omega (arith, e)), fd_head-NotIn-timers fd us), nodes_Disjoint_timers xs us)

-- The lists of two descriptors share no cell, since a client has one descriptor.
module _ (fd_of : ℕ → ℕ) where
  node-NotIn-fd :
      (x fd : ℕ) (ys : List ℕ)
      → All (λ c. fd_of c ≡ fd) ys
      → fd_of x ≢ fd
      → NotIn (fd_node x) (map fd_node ys)
  node-NotIn-fd x fd [] a h = tt
  node-NotIn-fd x fd (y ∷ ys) a h = (
    (λ e. let same : x ≡ y = omega (arith, e) in h (ap fd_of same ∙ a.0)),
    node-NotIn-fd x fd ys a.1 h,
  )

  nodes_Disjoint :
      (fd' fd : ℕ) (xs ys : List ℕ)
      → All (λ c. fd_of c ≡ fd') xs
      → All (λ c. fd_of c ≡ fd) ys
      → fd' ≢ fd
      → Disjoint (map fd_node xs) (fd_head fd ∷ map fd_node ys)
  nodes_Disjoint fd' fd [] ys a b h = tt
  nodes_Disjoint fd' fd (x ∷ xs) ys a b h = (
    ((λ e. omega (arith, e)), node-NotIn-fd x fd ys b (λ e. h (sym a.0 ∙ e))),
    nodes_Disjoint fd' fd xs ys a.1 b h,
  )

  pub fds_Disjoint_fds :
      (fd' fd : ℕ) (xs ys : List ℕ)
      → All (λ c. fd_of c ≡ fd') xs
      → All (λ c. fd_of c ≡ fd) ys
      → fd' ≢ fd
      → Disjoint (fd_head fd' ∷ map fd_node xs) (fd_head fd ∷ map fd_node ys)
  fds_Disjoint_fds fd' fd xs ys a b h =
      (((λ e. h (omega (arith, e))), fd_head-NotIn-fds fd' ys), nodes_Disjoint fd' fd xs ys a b h)

pub In-ne : (d a : ℕ) (xs : List ℕ) → In d xs → NotIn a xs → a ≢ d
In-ne d a [] h n = absurd h
In-ne d a (x ∷ xs) (inl e) n = λ q. n.0 (q ∙ e)
In-ne d a (x ∷ xs) (inr h) n = In-ne d a xs h n.1

-- A member splits the list, and taking it out is leaving that place.
pub In-split :
    (a : ℕ) (xs : List ℕ)
    → In a xs
    → (l r : List ℕ) × (xs ≡ l ++ a ∷ r) × (remove_one a xs ≡ l ++ r)
unfolding remove_one
In-split a [] h = absurd h
In-split a (x ∷ xs) h = elim (Bool-cases (a == x)) [
  | inl e ↦ let same : a ≡ x = ground (arith, e) in ([], xs, rw same, rw e)
  | inr e ↦ In-split_later x xs e (In-split a xs (later h e))
]
  where
    later : In a (x ∷ xs) → (a == x) ≡ false → In a xs
    later (inl q) e = absurd (ground (arith, q, e))
    later (inr q) e = q

    In-split_later :
        (x : ℕ) (xs : List ℕ)
        → (a == x) ≡ false
        → (l r : List ℕ) × (xs ≡ l ++ a ∷ r) × (remove_one a xs ≡ l ++ r)
        → (l r : List ℕ) × (x ∷ xs ≡ (l ++ a ∷ r))
          × ((if a == x then xs else x ∷ remove_one a xs) ≡ l ++ r)
    In-split_later x xs e (l, r, p, q) = (x ∷ l, r, ap (◌∷◌ x) p, rw (e, q))

pub remove_one-NotIn : (a : ℕ) (xs : List ℕ) → NotIn a xs → remove_one a xs ≡ xs
unfolding remove_one
remove_one-NotIn a [] h = refl
remove_one-NotIn a (x ∷ xs) h = ground (arith, h.0, remove_one-NotIn a xs h.1)

pub In-remove_one : (a b : ℕ) (xs : List ℕ) → In a xs → a ≢ b → In a (remove_one b xs)
unfolding remove_one
In-remove_one a b [] h ne = h
In-remove_one a b (x ∷ xs) (inl h) ne =
    let other : (b == x) ≡ false = ground (arith, h) in rw other (inl h)
In-remove_one a b (x ∷ xs) (inr h) ne = elim (Bool-cases (b == x)) [
  | inl e ↦ rw e h
  | inr e ↦ rw e (inr (In-remove_one a b xs h ne))
]

pub All-remove_one : (P : ℕ → Type 0) (a : ℕ) (xs : List ℕ) → All P xs → All P (remove_one a xs)
unfolding remove_one
All-remove_one P a [] h = h
All-remove_one P a (x ∷ xs) h = elim (Bool-cases (a == x)) [
  | inl e ↦ rw e h.1
  | inr e ↦ rw e (h.0, All-remove_one P a xs h.1)
]
