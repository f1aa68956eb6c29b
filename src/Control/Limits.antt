-- ===== src/Control/Limits.antt =====
-- The limits in days that `Control` gives to the log processor.
use thirft_proxy.Prelude.{
  ℕ, ◌^◌, ◌≤◌, ◌<◌, ◌≡◌, subst, Bool, true, false, Option, none, some, [], ◌∷◌, arith, inl, inr,
  Bool-cases, ◌==◌,
}
use thirft_proxy.Text.{Bytes, is_space, positive, negative, signed, atoi}
use thirft_proxy.Config.{find}
use thirft_proxy.ConfigManager.{Cm, config_get_intval, config_get_int_val, int_or_default}
use thirft_proxy.Control.{
  LogProcessor, lt_int, min_int, max_int, archive_limit, remove_limit, init, archive_days_key,
  remove_days_key,
}

signed_lt : (s : Bytes) → signed s < 2 ^ 32
unfolding signed positive negative
signed_lt [] = omega arith
signed_lt (c ∷ s) = elim (Bool-cases (c == b'-')) [
  | inl minus ↦ rw minus (omega arith)
  | inr other ↦ elim (Bool-cases (c == b'+')) [
    | inl plus ↦ rw (other, plus) (omega arith)
    | inr digit ↦ rw (other, digit) (omega arith)
  ]
]

atoi_lt : (s : Bytes) → atoi s < 2 ^ 32
unfolding atoi
atoi_lt [] = omega arith
atoi_lt (c ∷ s) = elim (Bool-cases (is_space c)) [
  | inl space ↦ rw space (atoi_lt s)
  | inr other ↦ rw other (signed_lt (c ∷ s))
]

int_or_default_lt : (n : ℕ) (o : Option Bytes) → n < 2 ^ 32 → int_or_default n o < 2 ^ 32
int_or_default_lt n none h = h
int_or_default_lt n (some v) h = atoi_lt v

config_get_intval_lt :
    (key : Bytes) (n : ℕ) (cm : Cm) → n < 2 ^ 32 → config_get_intval key n cm < 2 ^ 32
unfolding config_get_intval config_get_int_val
config_get_intval_lt key n none h = h
config_get_intval_lt key n (some c) h = elim (Bool-cases c.loaded) [
  | inl on ↦ rw on (int_or_default_lt n (find key c.config_map) h)
  | inr off ↦ rw off h
]

clamp_bounds :
    (low high n : ℕ)
    → low ≤ high
    → high < 2 ^ 31
    → n < 2 ^ 32
    → (low ≤ max_int low (min_int n high)) × (max_int low (min_int n high) ≤ high)
unfolding max_int min_int lt_int
clamp_bounds low high n le small h = (ground arith, ground arith)

some_inj : {a b : LogProcessor} → some a ≡ some b → a ≡ b
some_inj e = cc

abbrev IsOrdered : LogProcessor → Type 0
IsOrdered p =
    ((1 ≤ p.archive_days) × (p.archive_days ≤ 28))
    × ((p.archive_days ≤ p.remove_days) × (p.remove_days ≤ 168))

-- Whatever the configuration says, files are archived after 1 to 28 days, and removed after no fewer
-- days than that and at most 168.
pub init-IsOrdered :
    (room : Bool) (cm : Cm) (pwd : Bytes) (p : LogProcessor)
    → init room cm pwd ≡ some p
    → ((1 ≤ p.archive_days) × (p.archive_days ≤ 28))
      × ((p.archive_days ≤ p.remove_days) × (p.remove_days ≤ 168))
unfolding init archive_limit remove_limit
init-IsOrdered false cm pwd p e = absurd cc
init-IsOrdered true cm pwd p e =
    let archive = config_get_intval archive_days_key 7 cm in
    let remove = config_get_intval remove_days_key 28 cm in
    let first =
      clamp_bounds 1 28 archive (omega arith) (omega arith)
        (config_get_intval_lt archive_days_key 7 cm (omega arith)) in
    let second =
      clamp_bounds (max_int 1 (min_int archive 28)) 168 remove (omega (arith, first.1))
        (omega arith) (config_get_intval_lt remove_days_key 28 cm (omega arith)) in
    subst IsOrdered (some_inj e) (first, second)
