-- ===== src/ConnectionPool/Failed.antt =====
-- What a pool looks like after a call on one of its connections failed.
use thirft_proxy.Prelude.{
  zero, suc, ◌≢◌, ◌^◌, Bool, not, ap, sym, ◌∙◌, ◌==◌, if◌then◌else◌, Bool-cases, inl, inr,
  get_elem?-set_self, get_elem?-set_ne, get_elem?_lt, done, ℕ, ◌+◌, ◌≤◌, ◌<◌, ◌≡◌, refl, true,
  false, some, [], ◌∷◌, map, get_elem?, set, length, arith, ltb, lt→ltb, ◌⊎◌, All,
}
use thirft_proxy.Connection.{TransportApi, Connection, available, set_busy}
use thirft_proxy.ConnectionPool.{Conns, Pool, shut_down, reopen, release}
use thirft_proxy.ConnectionPool.Release.{
  total_available, marked, after_release, release-after_release,
}

module _ (api : TransportApi) where
  open api use {is_open, open_transport, close, open-is_open, close-is_open}

  abbrev pub IsShut : Connection api → Type 0
  IsShut c = (c.is_dead ≡ true) × (is_open c.transport ≡ false)

  -- Dead, or reopened and free.
  abbrev pub IsRetried : Connection api → Type 0
  IsRetried c =
      (c.is_dead ≡ true)
      ⊎ ((c.is_dead ≡ false) × (c.is_busy ≡ false) × (is_open c.transport ≡ true))

  shut_down-All : (cs : Conns api) → All IsShut (map (shut_down api) cs)
  unfolding shut_down
  shut_down-All [] = tt
  shut_down-All (c ∷ cs) = ((refl, close-is_open c.transport), shut_down-All cs)

  reopen-IsRetried : (c : Connection api) → IsShut c → IsRetried (reopen api c)
  unfolding reopen
  reopen-IsRetried c h = ground (arith, open-is_open c.transport)

  reopen-All : (cs : Conns api) → All IsShut cs → All IsRetried (map (reopen api) cs)
  reopen-All [] h = tt
  reopen-All (c ∷ cs) h = (reopen-IsRetried c h.0, reopen-All cs h.1)

  total_available_shut : (cs : Conns api) → All IsShut cs → total_available api cs ≡ 0
  unfolding total_available available
  total_available_shut [] h = refl
  total_available_shut (c ∷ cs) h = ground (arith, h.0, total_available_shut cs h.1)

  -- Whether the connection at `i` has a caller when the one at `conn` is given back.
  abbrev pub is_held : ℕ → ℕ → Connection api → Bool
  is_held conn i b = if conn == i then false else b.is_busy

  -- The connection at `i` when all are shut.
  abbrev pub when_shut : ℕ → ℕ → Connection api → Connection api
  when_shut conn i b = record b {
    is_busy = is_held conn i b;
    is_dead = true;
    transport = close b.transport;
  }

  -- The connection at `i` when then those without a caller are opened anew.
  abbrev pub when_opened : ℕ → ℕ → Connection api → Connection api
  when_opened conn i b =
      let (opened, t) = open_transport (close b.transport) in
      if is_held conn i b
      then when_shut conn i b
      else record b { is_busy = false; is_dead = not opened; transport = t }

  some_inj : {v b : Connection api} → some v ≡ some b → v ≡ b
  some_inj e = cc

  given_back :
      (v b : Connection api) → some v ≡ some b → set_busy api false v ≡ set_busy api false b
  given_back v b e = ap (set_busy api false) (some_inj e)

  get_elem?-given_back :
      (cs : Conns api) (conn i : ℕ) (v b : Connection api)
      → get_elem? cs conn ≡ some v
      → get_elem? cs i ≡ some b
      → get_elem? (set cs conn (set_busy api false v)) i
        ≡ some (record b { is_busy = is_held conn i b })
  get_elem?-given_back cs conn i v b g k = elim (Bool-cases (conn == i)) [
    | inl e ↦
        let here : conn ≡ i = ground arith in
        rw (e, ← here, get_elem?-set_self cs conn (set_busy api false v) (get_elem?_lt cs conn v g))
          (ap some (given_back v b (sym g ∙ ap (get_elem? cs) here ∙ k)))
    | inr e ↦
        let there : conn ≢ i = ground arith in
        rw (e, get_elem?-set_ne cs conn i (set_busy api false v) there) k
  ]

  get_elem?-map :
      (f : Connection api → Connection api) (cs : Conns api) (i : ℕ) (b : Connection api)
      → get_elem? cs i ≡ some b
      → get_elem? (map f cs) i ≡ some (f b)
  get_elem?-map f [] i b e = absurd cc
  get_elem?-map f (c ∷ cs) zero b e = ap some (ap f (some_inj e))
  get_elem?-map f (c ∷ cs) (suc i) b e = get_elem?-map f cs i b e

  shut_down-when_shut :
      (conn i : ℕ) (b : Connection api)
      → shut_down api (record b { is_busy = is_held conn i b }) ≡ when_shut conn i b
  unfolding shut_down
  shut_down-when_shut conn i b = refl

  reopen-when_opened :
      (conn i : ℕ) (b : Connection api) → reopen api (when_shut conn i b) ≡ when_opened conn i b
  unfolding reopen
  reopen-when_opened conn i b = elim (Bool-cases (is_held conn i b)) [
    | inl held ↦ rw held refl
    | inr free ↦ rw free refl
  ]

  all_shut :
      (cs : Conns api) (conn i : ℕ) (v b : Connection api)
      → get_elem? cs conn ≡ some v
      → get_elem? cs i ≡ some b
      → get_elem? (map (shut_down api) (set cs conn (set_busy api false v))) i
        ≡ some (when_shut conn i b)
  all_shut cs conn i v b g k =
      get_elem?-map (shut_down api) (set cs conn (set_busy api false v)) i _
        (get_elem?-given_back cs conn i v b g k)
      ∙ ap some (shut_down-when_shut conn i b)

  all_opened :
      (cs : Conns api) (conn i : ℕ) (v b : Connection api)
      → get_elem? cs conn ≡ some v
      → get_elem? cs i ≡ some b
      → get_elem? (map (reopen api) (map (shut_down api) (set cs conn (set_busy api false v)))) i
        ≡ some (when_opened conn i b)
  all_opened cs conn i v b g k =
      get_elem?-map (reopen api) (map (shut_down api) (set cs conn (set_busy api false v))) i _
        (all_shut cs conn i v b g k)
      ∙ ap some (reopen-when_opened conn i b)

  -- In a pool of the right size, with a check interval that is not negative, releasing one of the
  -- connections after a failed call shuts every connection of the pool, those that other callers
  -- hold included. Within the check interval all stay dead, closed and not available. After
  -- it each connection that no caller holds, the released one included, is opened anew: it is then
  -- free, with the transport that the opening left, and dead exactly when the opening failed; those
  -- that are held stay dead and closed. Nothing else of a connection changes.
  pub release_failed :
      (now conn : ℕ) (c : Connection api) (p : Pool api)
      → length p.connections ≡ p.pool_size
      → get_elem? p.connections conn ≡ some c
      → p.check_interval_sec < 2 ^ 31
      → (q : Pool api) × (release api now conn false p ≡ done q)
        × (now ≤ p.last_checked_time + p.check_interval_sec
            → All IsShut q.connections
              × (total_available api q.connections ≡ 0)
              × (q.last_checked_time ≡ p.last_checked_time)
              × ((i : ℕ) (b : Connection api)
                  → get_elem? p.connections i ≡ some b
                  → get_elem? q.connections i ≡ some (when_shut conn i b)))
        × (p.last_checked_time + p.check_interval_sec < now
            → All IsRetried q.connections
              × (q.last_checked_time ≡ now)
              × ((i : ℕ) (b : Connection api)
                  → get_elem? p.connections i ≡ some b
                  → get_elem? q.connections i ≡ some (when_opened conn i b)))
  unfolding after_release marked
  release_failed now conn c p e g sane =
      let unsigned = lt→ltb p.check_interval_sec (2 ^ 31) sane in
      let shut = shut_down-All (set p.connections conn (set_busy api false c)) in
      (
        after_release api now conn false c p,
        release-after_release api now conn false c p e g,
        (λ h.
            let q : ltb (p.last_checked_time + p.check_interval_sec) now ≡ false = ground arith in
            rw (unsigned, q)
              (
                shut,
                total_available_shut _ shut,
                refl,
                λ i b k. all_shut p.connections conn i c b g k,
              )),
        λ h.
            rw (unsigned, lt→ltb _ _ h)
              (reopen-All _ shut, refl, λ i b k. all_opened p.connections conn i c b g k),
      )
