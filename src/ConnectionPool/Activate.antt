-- ===== src/ConnectionPool/Activate.antt =====
-- The second loop of `getConnection`: it opens an idle connection, or marks it dead.
use thirft_proxy.Prelude.{
  ℕ, zero, suc, ◌+◌, ◌≤◌, ◌<◌, ◌≡◌, refl, sym, subst, ◌∙◌, ◌⊎◌, inl, inr, true, false, Option, some,
  get_elem?, get_elem?-some, get_elem?_lt, get_elem?-set_self, get_elem?-set_ne, length, length-set,
  set, arith, tests, ltb, Bool-cases,
}
use thirft_proxy.Connection.{TransportApi, Connection, set_busy, set_dead}
use thirft_proxy.ConnectionPool.{Conns, Search, found, missing, activate}

module _ (api : TransportApi) where
  open api use {is_open, open_transport, open-is_open}

  -- Held by a caller, or known to be dead.
  abbrev pub BusyOrDead : Connection api → Type 0
  BusyOrDead c = (c.is_busy ≡ true) ⊎ (c.is_dead ≡ true)

  -- An idle connection at `k` was opened, and is handed out as busy.
  pub record Opened (cs cs' : Conns api) (k : ℕ) : Type 0 where
    pub was : Connection api
    pub was_there : get_elem? cs k ≡ some was
    pub was_idle : was.is_busy ≡ false
    pub now : Connection api
    pub now_there : get_elem? cs' k ≡ some now
    pub now_busy : now.is_busy ≡ true
    pub now_open : is_open now.transport ≡ true

  -- `i` is the place that the loop has come to.
  abbrev Activated : ℕ → Conns api → Search × Conns api → Type 0
  Activated i cs r =
      ((k : ℕ) × (cs' : Conns api) × (r ≡ (found k, cs'))
        × (i ≤ k)
        × (length cs' ≡ length cs)
        × Opened cs cs' k)
      ⊎ ((cs' : Conns api) × (r ≡ (missing, cs'))
          × (length cs' ≡ length cs)
          × ((j : ℕ) → j < i → get_elem? cs' j ≡ get_elem? cs j)
          × ((j : ℕ) (c : Connection api) → i ≤ j → get_elem? cs' j ≡ some c → BusyOrDead c))

  abbrev tried : Connection api → Connection api
  tried c = record c { transport = (open_transport c.transport).1 }

  activate_busy :
      (rounds i : ℕ) (cs : Conns api) (c : Connection api)
      → get_elem? cs i ≡ some c
      → c.is_busy ≡ true
      → activate api (suc rounds) i cs ≡ activate api rounds (i + 1) cs
  unfolding activate
  activate_busy rounds i cs c e b = ground (arith, e, b)

  activate_opens :
      (rounds i : ℕ) (cs : Conns api) (c : Connection api)
      → get_elem? cs i ≡ some c
      → c.is_busy ≡ false
      → (open_transport c.transport).0 ≡ true
      → activate api (suc rounds) i cs ≡ (found i, set cs i (set_busy api true (tried c)))
  unfolding activate
  activate_opens rounds i cs c e b o = ground (arith, e, b, o)

  activate_fails :
      (rounds i : ℕ) (cs : Conns api) (c : Connection api)
      → get_elem? cs i ≡ some c
      → c.is_busy ≡ false
      → (open_transport c.transport).0 ≡ false
      → activate api (suc rounds) i cs
        ≡ activate api rounds (i + 1) (set cs i (set_dead api true (tried c)))
  unfolding activate
  activate_fails rounds i cs c e b o = ground (arith, e, b, o)

  some_eq : (o : Option (Connection api)) (a b : Connection api) → o ≡ some a → o ≡ some b → a ≡ b
  some_eq o a b e f = cc

  -- The places after `i`, and `i` itself, where the result holds what the loop left there.
  from_here :
      (i : ℕ) (cs' : Conns api) (d : Connection api)
      → get_elem? cs' i ≡ some d
      → BusyOrDead d
      → ((j : ℕ) (c : Connection api) → i + 1 ≤ j → get_elem? cs' j ≡ some c → BusyOrDead c)
      → (j : ℕ) (c : Connection api) → i ≤ j
      → get_elem? cs' j ≡ some c
      → BusyOrDead c
  from_here i cs' d e h k j c le q = elim (Bool-cases (ltb i j)) [
    | inl after ↦ k j c (omega (tests, after)) q
    | inr not_after ↦
        let same : i ≡ j = ground (arith, not_after) in
        subst BusyOrDead (some_eq (get_elem? cs' i) d c e (rw same q)) h
  ]

  pub activate_cases :
      (rounds i : ℕ) (cs : Conns api)
      → i + rounds ≡ length cs
      → Activated i cs (activate api rounds i cs)
  unfolding activate
  activate_cases zero i cs h =
      inr (cs, refl, refl, (λ j k. refl), λ j c k e. absurd (omega (arith, get_elem?_lt cs j c e)))
  activate_cases (suc rounds) i cs h =
      let (c, e) = get_elem?-some cs i (omega arith) in
      elim (Bool-cases c.is_busy) [
        | inl busy ↦
            rw (activate_busy rounds i cs c e busy)
              (later_busy c e busy (activate_cases rounds (i + 1) cs (omega arith)))
        | inr idle ↦ elim (Bool-cases (open_transport c.transport).0) [
          | inl opened ↦ rw (activate_opens rounds i cs c e idle opened) (
              inl (
                i,
                set cs i (set_busy api true (tried c)),
                refl,
                omega arith,
                length-set cs i _,
                record {
                  was = c;
                  was_there = e;
                  was_idle = idle;
                  now = set_busy api true (tried c);
                  now_there = get_elem?-set_self cs i _ (omega arith);
                  now_busy = refl;
                  now_open = open-is_open c.transport opened;
                },
              ))
          | inr threw ↦
              let cs1 = set cs i (set_dead api true (tried c)) in
              rw (activate_fails rounds i cs c e idle threw) (
                later_dead c (
                  activate_cases rounds (i + 1) cs1
                    (omega (arith, length-set cs i (set_dead api true (tried c))))))
        ]
      ]
    where
      later_busy :
          (c : Connection api)
          → get_elem? cs i ≡ some c
          → c.is_busy ≡ true
          → Activated (i + 1) cs (activate api rounds (i + 1) cs)
          → Activated i cs (activate api rounds (i + 1) cs)
      later_busy c e b (inl (k, cs', r, le, len, o)) = inl (k, cs', r, omega arith, len, o)
      later_busy c e b (inr (cs', r, len, before, after)) = inr (
        cs',
        r,
        len,
        (λ j lt. before j (omega arith)),
        from_here i cs' c (before i (omega arith) ∙ e) (inl b) after,
      )

      later_dead :
          (c : Connection api)
          → let cs1 = set cs i (set_dead api true (tried c)) in
            Activated (i + 1) cs1 (activate api rounds (i + 1) cs1)
            → Activated i cs (activate api rounds (i + 1) cs1)
      later_dead c (inl (k, cs', r, le, len, o)) = inl (
        k,
        cs',
        r,
        omega arith,
        len ∙ length-set cs i _,
        record {
          was = o.was;
          was_there = sym (get_elem?-set_ne cs i k _ (omega arith)) ∙ o.was_there;
          was_idle = o.was_idle;
          now = o.now;
          now_there = o.now_there;
          now_busy = o.now_busy;
          now_open = o.now_open;
        },
      )
      later_dead c (inr (cs', r, len, before, after)) = inr (
        cs',
        r,
        len ∙ length-set cs i _,
        (λ j lt. before j (omega arith) ∙ get_elem?-set_ne cs i j _ (omega arith)),
        from_here i cs' (set_dead api true (tried c))
            (before i (omega arith) ∙ get_elem?-set_self cs i _ (omega arith)) (inr refl) after,
      )
