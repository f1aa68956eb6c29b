-- ===== src/ConnectionPool/Scan.antt =====
-- The scan of `getConnection`: in cyclic order from the start, the first available connection.
use native.Mathlib.Nat.{mod-lt, mod-add-mod, mod-eq_of_lt, add-mod_right}
use thirft_proxy.Prelude.{
  ℕ, zero, suc, ◌+◌, ◌-◌, ◌%◌, ◌≤◌, ◌<◌, ◌≡◌, refl, sym, ◌∙◌, ap, ◌⊎◌, inl, inr, Bool, true, false,
  none, some, get_elem?, get_elem?-some, get_elem?-none, length, arith, tests, ltb, leb, ltb→lt,
  Bool-cases,
}
use thirft_proxy.Connection.{TransportApi, Connection, available}
use thirft_proxy.ConnectionPool.{Conns, found, missing, out_of_range, find_available}

module _ (api : TransportApi) where
  -- Whether there is a connection at a place, and it is available.
  abbrev pub available_at : Conns api → ℕ → Bool
  available_at cs i = elim (get_elem? cs i) [ none ↦ false | some c ↦ available api c ]

  -- The `d`-th place that a scan from `start` looks at is the first available one.
  pub record IsFirst (cs : Conns api) (start d : ℕ) : Type 0 where
    pub hit : available_at cs ((start + d) % length cs) ≡ true
    pub before : (j : ℕ) → j < d → available_at cs ((start + j) % length cs) ≡ false

  mod-eq_of_lt' : (start size : ℕ) → start < size → (start + 0) % size ≡ start
  mod-eq_of_lt' start size h = ap (λ (n : ℕ). n % size) (omega arith) ∙ mod-eq_of_lt h

  next_place :
      (size start j : ℕ) → 0 < size → ((start + 1) % size + j) % size ≡ (start + suc j) % size
  next_place size start j h =
      mod-add-mod (start + 1) size j ∙ ap (λ (n : ℕ). n % size) (omega arith)

  at_place :
      (cs : Conns api) (i : ℕ) (c : Connection api) (b : Bool)
      → get_elem? cs i ≡ some c
      → available api c ≡ b
      → available_at cs i ≡ b
  at_place cs i c b e h = rw (e, available_at) h

  find_here :
      (rounds size start : ℕ) (cs : Conns api) (c : Connection api)
      → get_elem? cs start ≡ some c
      → available api c ≡ true
      → find_available api (suc rounds) size start cs ≡ found start
  unfolding find_available
  find_here rounds size start cs c e h = ground (arith, e, h)

  find_later :
      (rounds size start : ℕ) (cs : Conns api) (c : Connection api)
      → get_elem? cs start ≡ some c
      → available api c ≡ false
      → find_available api (suc rounds) size start cs
        ≡ find_available api rounds size ((start + 1) % size) cs
  unfolding find_available
  find_later rounds size start cs c e h = ground (arith, e, h)

  before_suc :
      (cs : Conns api) (start d : ℕ)
      → 0 < length cs
      → available_at cs ((start + 0) % length cs) ≡ false
      → ((j : ℕ) → j < d → available_at cs (((start + 1) % length cs + j) % length cs) ≡ false)
      → (j : ℕ) → j < suc d
      → available_at cs ((start + j) % length cs) ≡ false
  before_suc cs start d pos h k zero lt = h
  before_suc cs start d pos h k (suc j) lt =
      rw (← next_place (length cs) start j pos) (k j (omega arith))

  pub find_available_cases :
      (rounds start : ℕ) (cs : Conns api)
      → start < length cs
      → ((d : ℕ) × (d < rounds)
          × (find_available api rounds (length cs) start cs ≡ found ((start + d) % length cs))
          × IsFirst cs start d)
        ⊎ ((find_available api rounds (length cs) start cs ≡ missing)
            × ((j : ℕ) → j < rounds → available_at cs ((start + j) % length cs) ≡ false))
  unfolding find_available
  find_available_cases zero start cs h = inr (refl, λ j k. elim k [ ])
  find_available_cases (suc rounds) start cs h =
      let (c, e) = get_elem?-some cs start h in
      let here : (start + 0) % length cs ≡ start = mod-eq_of_lt' start (length cs) h in
      elim (Bool-cases (available api c)) [
        | inl hit ↦ inl (
          0,
          omega arith,
          find_here rounds (length cs) start cs c e hit ∙ ap found (sym here),
          record { hit = rw here (at_place cs start c true e hit); before = λ j k. elim k [ ] },
        )
        | inr miss ↦
            let later = find_later rounds (length cs) start cs c e miss in
            let none_here : available_at cs ((start + 0) % length cs) ≡ false =
              rw here (at_place cs start c false e miss) in
            elim (find_available_cases rounds ((start + 1) % length cs) cs
              (mod-lt (start + 1) (omega arith))) [
                | inl (d, lt, q, first) ↦ inl (
                  suc d,
                  omega arith,
                  later ∙ q ∙ ap found (next_place (length cs) start d (omega arith)),
                  record {
                    hit = rw (← next_place (length cs) start d (omega arith)) first.hit;
                    before = before_suc cs start d (omega arith) none_here first.before;
                  },
                )
                | inr (q, none_there) ↦
                    inr (later ∙ q, before_suc cs start rounds (omega arith) none_here none_there)
              ]
      ]

  -- A full round that finds nothing has looked at every place.
  pub every_place :
      (cs : Conns api) (start : ℕ)
      → start < length cs
      → ((j : ℕ) → j < length cs → available_at cs ((start + j) % length cs) ≡ false)
      → (i : ℕ) → i < length cs
      → available_at cs i ≡ false
  every_place cs start h k i lt = elim (Bool-cases (leb start i)) [
    | inl ge ↦
        let e : (start + (i - start)) % length cs ≡ i =
          ap (λ (n : ℕ). n % length cs) (ground (arith, ge)) ∙ mod-eq_of_lt lt in
        rw e at (k (i - start) (omega arith))
    | inr before ↦
        let e : (start + (i + length cs - start)) % length cs ≡ i =
          ap (λ (n : ℕ). n % length cs) (omega arith)
          ∙ add-mod_right i (length cs)
          ∙ mod-eq_of_lt lt in
        rw e at (k (i + length cs - start) (ground (arith, before)))
  ]

  -- On a vector that is too short, a scan that meets nothing available runs out of it.
  pub find_available_short :
      (rounds size start : ℕ) (cs : Conns api)
      → length cs < size
      → start ≤ length cs
      → length cs < start + rounds
      → ((i : ℕ) → i < length cs → available_at cs i ≡ false)
      → find_available api rounds size start cs ≡ out_of_range
  unfolding find_available
  find_available_short zero size start cs h k r none_there = absurd (omega arith)
  find_available_short (suc rounds) size start cs h k r none_there =
      elim (Bool-cases (ltb start (length cs))) [
        | inl inside ↦
            let (c, e) = get_elem?-some cs start (ltb→lt _ _ inside) in
            let miss : available api c ≡ false =
              rw (e, available_at) at (none_there start (ltb→lt _ _ inside)) in
            find_later rounds size start cs c e miss
            ∙ rw (mod-eq_of_lt {n = start + 1} {m = size} (omega (tests, inside))) (
                find_available_short rounds size (start + 1) cs h (omega (tests, inside))
                  (omega arith) none_there)
        | inr outside ↦
            let e : start ≡ length cs = ground (arith, outside) in
            rw e (ground (arith, get_elem?-none cs))
      ]
