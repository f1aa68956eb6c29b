-- ===== src/ConnectionPool/Release.antt =====
-- `release` against a description by whole-list operations.
use thirft_proxy.Prelude.{
  done, ℕ, suc, ◌+◌, ◌≡◌, refl, ◌∙◌, ap, Bool, true, false, not, ◌||◌, some, List, [], ◌∷◌, ◌++◌,
  map, get_elem?, set, length, length-set, arith, if◌then◌else◌,
}
use thirft_proxy.Connection.{TransportApi, Connection, available, set_busy, set_dead}
use thirft_proxy.ConnectionPool.{
  Conns, Pool, for_each, count_available, available_count, shut_down, reopen, is_short,
  is_check_due, recheck, mark_released, release,
}

module _ {A : Type 0} where
  get_middle :
      (pre : List A) (c : A) (cs : List A) → get_elem? (pre ++ c ∷ cs) (length pre) ≡ some c
  get_middle [] c cs = refl
  get_middle (x ∷ pre) c cs = get_middle pre c cs

  set_middle :
      (pre : List A) (c v : A) (cs : List A) → set (pre ++ c ∷ cs) (length pre) v ≡ pre ++ v ∷ cs
  set_middle [] c v cs = refl
  set_middle (x ∷ pre) c v cs = ap (◌∷◌ x) (set_middle pre c v cs)

  length_snoc : (pre : List A) (c : A) → length (pre ++ c ∷ []) ≡ length pre + 1
  length_snoc [] c = omega arith
  length_snoc (x ∷ pre) c = omega (arith, length_snoc pre c)

  snoc_append : (pre : List A) (c : A) (cs : List A) → (pre ++ c ∷ []) ++ cs ≡ pre ++ c ∷ cs
  snoc_append [] c cs = refl
  snoc_append (x ∷ pre) c cs = ap (◌∷◌ x) (snoc_append pre c cs)

module _ (api : TransportApi) where
  open api use {is_open, open_transport, close, open-is_open, close-is_open}

  for_each_from :
      (f : Connection api → Connection api) (pre cs : Conns api)
      → for_each api f (length cs) (length pre) (pre ++ cs) ≡ done (pre ++ map f cs)
  unfolding for_each
  for_each_from f pre [] = refl
  for_each_from f pre (c ∷ cs) =
      rw (get_middle pre c cs, for_each)
        (rw (set_middle pre c (f c) cs, ← length_snoc pre (f c), ← snoc_append pre (f c) cs)
          (for_each_from f (pre ++ f c ∷ []) cs
            ∙ ap (λ (l : Conns api). done l) (snoc_append pre (f c) (map f cs))))

  for_each-map :
      (f : Connection api → Connection api) (n : ℕ) (cs : Conns api)
      → length cs ≡ n
      → for_each api f n 0 cs ≡ done (map f cs)
  for_each-map f n cs e = rw (← e) (for_each_from f [] cs)

  -- How many connections of a list are available.
  unfoldable pub total_available : Conns api → ℕ
  total_available [] = 0
  total_available (c ∷ cs) = if available api c then total_available cs + 1 else total_available cs

  count_available_from :
      (pre cs : Conns api)
      → count_available api (length cs) (length pre) (pre ++ cs) ≡ done (total_available cs)
  unfolding count_available total_available
  count_available_from pre [] = refl
  count_available_from pre (c ∷ cs) =
      rw (get_middle pre c cs, count_available)
        (rw (← length_snoc pre c, ← snoc_append pre c cs, count_available_from (pre ++ c ∷ []) cs)
          (ground arith))

  -- `availableCount` on a pool of the right size counts the available connections.
  pub available_count_lem :
      (p : Pool api)
      → length p.connections ≡ p.pool_size
      → available_count api p ≡ done (total_available p.connections)
  unfolding available_count
  available_count_lem p e = rw (← e) (count_available_from [] p.connections)

  -- The connections after the first part of `release`.
  unfoldable pub marked : ℕ → Bool → Connection api → Conns api → Conns api
  marked conn status c cs =
      if status
      then set cs conn (set_dead api false (set_busy api false c))
      else map (shut_down api) (set cs conn (set_busy api false c))

  -- The whole of `release`: reopen what is idle if the call failed, or too few are left, unless
  -- that was done within the check interval.
  unfoldable pub after_release : ℕ → ℕ → Bool → Connection api → Pool api → Pool api
  unfolding marked
  after_release now conn status c p =
      let cs = marked conn status c p.connections in
      if not status || is_short api (total_available cs) p
      then if is_check_due api now p
        then record p { connections = map (reopen api) cs; last_checked_time = now }
        else record p { connections = cs }
      else record p { connections = cs }

  length-map' :
      (f : Connection api → Connection api) (cs : Conns api) → length (map f cs) ≡ length cs
  length-map' f [] = refl
  length-map' f (c ∷ cs) = ap suc (length-map' f cs)

  length-marked :
      (conn : ℕ) (status : Bool) (c : Connection api) (cs : Conns api)
      → length (marked conn status c cs) ≡ length cs
  unfolding marked
  length-marked conn true c cs = length-set cs conn _
  length-marked conn false c cs = length-map' (shut_down api) _ ∙ length-set cs conn _

  mark_released_lem :
      (conn : ℕ) (status : Bool) (c : Connection api) (p : Pool api)
      → length p.connections ≡ p.pool_size
      → get_elem? p.connections conn ≡ some c
      → mark_released api conn status p
        ≡ done (record p { connections = marked conn status c p.connections })
  unfolding mark_released marked
  mark_released_lem conn true c p e g = ground (arith, g)
  mark_released_lem conn false c p e g =
      let cs = set p.connections conn (set_busy api false c) in
      ground (
        arith,
        g,
        for_each-map (shut_down api) p.pool_size cs
            (length-set p.connections conn (set_busy api false c) ∙ e),
      )

  recheck_lem :
      (now : ℕ) (p : Pool api)
      → length p.connections ≡ p.pool_size
      → recheck api now p
        ≡ done (
            if is_check_due api now p
            then record p { connections = map (reopen api) p.connections; last_checked_time = now }
            else p)
  unfolding recheck
  recheck_lem now p e = ground (arith, for_each-map (reopen api) p.pool_size p.connections e)

  -- On a pool of the right size, releasing one of its connections never faults, and does what
  -- `after_release` says.
  pub release-after_release :
      (now conn : ℕ) (status : Bool) (c : Connection api) (p : Pool api)
      → length p.connections ≡ p.pool_size
      → get_elem? p.connections conn ≡ some c
      → release api now conn status p ≡ done (after_release now conn status c p)
  unfolding release after_release
  release-after_release now conn status c p e g =
      let cs = marked conn status c p.connections in
      let q : Pool api = record p { connections = cs } in
      let sized : length cs ≡ p.pool_size = length-marked conn status c p.connections ∙ e in
      rw (mark_released_lem conn status c p e g, available_count_lem q sized)
        (ground (arith, recheck_lem now q sized))

  -- A release changes neither the number of connections nor the pool's size.
  pub after_release_size :
      (now conn : ℕ) (status : Bool) (c : Connection api) (p : Pool api)
      → (length (after_release now conn status c p).connections ≡ length p.connections)
        × ((after_release now conn status c p).pool_size ≡ p.pool_size)
  unfolding after_release
  after_release_size now conn status c p =
      let cs = marked conn status c p.connections in
      let kept = length-marked conn status c p.connections in
      let reopened = length-map' (reopen api) cs in (ground (arith, kept, reopened), ground arith)
