-- ===== src/Server/Channel.antt =====
-- The work processes that packets go to.
use native.Mathlib.Nat.{mod-lt, mod-add-mod, mod-eq_of_lt, add-mod_right}
use thirft_proxy.Prelude.{
  Outcome, done, ◌>>=◌, ℕ, zero, suc, ◌+◌, ◌-◌, ◌%◌, ◌^◌, ◌≤◌, ◌<◌, ◌≡◌, refl, sym, ◌∙◌, ap, false,
  arith, ◌==◌, leb, inl, inr, Bool-cases,
}
use thirft_proxy.Server.{proxy, role_of, select_channel}

work_processes : (w : ℕ) → 1 < w → w < 2 ^ 32 → (w + (2 ^ 32 - 1)) % 2 ^ 32 ≡ w - 1
work_processes w l h = omega arith

select_channel_lem :
    (w n : ℕ)
    → 1 < w
    → w < 2 ^ 32
    → n + 1 < 2 ^ 31
    → select_channel w n ≡ done (n % (w - 1), (n + 1) % 2 ^ 32)
unfolding select_channel
select_channel_lem w n l h b = rw (work_processes w l h, not_zero, room) refl
  where
    room : (n + 1 == 2 ^ 31) ≡ false
    room = ground arith

    not_zero : ((w - 1) == 0) ≡ false
    not_zero = ground arith

role_of-proxy : (k w : ℕ) → 1 < w → w < 2 ^ 32 → k + 1 < w → role_of k w ≡ proxy
unfolding role_of
role_of-proxy k w l h lt = rw (work_processes w l h, not_last) refl
  where
    not_last : (k == (w - 1)) ≡ false
    not_last = ground arith

-- The process of the packet that comes after `i` others.
unfoldable pub nth_channel : (i work_num serialize_num : ℕ) → Outcome ℕ
nth_channel zero w n = select_channel w n >>= λ r. done r.0
nth_channel (suc i) w n = select_channel w n >>= λ r. nth_channel i w r.1

nth_channel_lem :
    (i w n : ℕ)
    → 1 < w
    → w < 2 ^ 32
    → n + i + 1 < 2 ^ 31
    → nth_channel i w n ≡ done ((n + i) % (w - 1))
unfolding nth_channel
nth_channel_lem zero w n l h b =
    rw (select_channel_lem w n l h (omega arith)) (ap (λ (x : ℕ). done (x % (w - 1))) (omega arith))
nth_channel_lem (suc i) w n l h b =
    rw (select_channel_lem w n l h (omega arith), next)
      (nth_channel_lem i w (n + 1) l h (omega arith)
        ∙ ap (λ (x : ℕ). done (x % (w - 1))) (omega arith))
  where
    next : (n + 1) % 2 ^ 32 ≡ n + 1
    next = omega arith

-- A step within a round that leads from the remainder of `n` to `j`.
abbrev Leads : (n m j : ℕ) → Type 0
Leads n m j = (i : ℕ) × ((i < m) × ((n + i) % m ≡ j))

step-Leads : (n m j : ℕ) → j < m → Leads n m j
step-Leads n m j lt = elim (Bool-cases (leb (n % m) j)) [
  | inl le ↦ (
    j - n % m,
    (
      omega arith,
      sym (mod-add-mod n m (j - n % m))
          ∙ (ap (λ (x : ℕ). x % m) (up (ground arith)) ∙ mod-eq_of_lt lt),
    ),
  )
  | inr gt ↦ (
    j + m - n % m,
    (
      around (mod-lt n (omega arith)) (ground arith),
      sym (mod-add-mod n m (j + m - n % m))
          ∙ (ap (λ (x : ℕ). x % m) (over (mod-lt n (omega arith)))
              ∙ (add-mod_right j m ∙ mod-eq_of_lt lt)),
    ),
  )
]
  where
    up : n % m ≤ j → n % m + (j - n % m) ≡ j
    up h = omega arith

    over : n % m < m → n % m + (j + m - n % m) ≡ j + m
    over h = omega arith

    around : n % m < m → j < n % m → j + m - n % m < m
    around h g = omega arith

-- With more than one work process, a packet goes to a process that runs `Proxy`, for every value of
-- the counter, an `int` from 0 up, but the largest one; and from a counter that does not overflow within
-- `w` packets, each process that runs `Proxy` is among those of the next `w - 1` packets in turn.
pub select_channel-role_of :
    (w m n j : ℕ)
    → 1 < w
    → w < 2 ^ 32
    → m + 1 < 2 ^ 31
    → n + w ≤ 2 ^ 31
    → j + 1 < w
    → ((r : ℕ × ℕ) × ((select_channel w m ≡ done r) × (role_of r.0 w ≡ proxy)))
      × ((i : ℕ) × ((i + 1 < w) × (nth_channel i w n ≡ done j)))
select_channel-role_of w m n j l h room b lt =
    let (i, (small, at)) = step-Leads n (w - 1) j (omega arith) in
    (
      (
        (m % (w - 1), (m + 1) % 2 ^ 32),
        (
          select_channel_lem w m l h room,
          role_of-proxy (m % (w - 1)) w l h (last (mod-lt m (omega arith))),
        ),
      ),
      (i, (omega arith, nth_channel_lem i w n l h (omega arith) ∙ ap done at)),
    )
  where
    last : m % (w - 1) < w - 1 → m % (w - 1) + 1 < w
    last g = omega arith
