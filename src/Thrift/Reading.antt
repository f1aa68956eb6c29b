-- ===== src/Thrift/Reading.antt =====
-- The loop that every generated `read` has.
use thirft_proxy.Prelude.{
  ◌≡◌, refl, Bool, false, Option, none, some, ℕ, if◌then◌else◌, Bool-cases, inl, inr,
}
use thirft_proxy.Thrift.{Value, Fields, stop, broken, field}

module _ {A : Type 0} where
  abbrev pub and_then : Option A → (A → Option A) → Option A
  and_then none f = none
  and_then (some a) f = f a

  -- `while (true)`: a field is begun, the loop stops at `T_STOP`, or the field is read or skipped.
  unfoldable pub read_fields : (ℕ → Value → A → Option A) → Fields → A → Option A
  read_fields read_field stop s = some s
  read_fields read_field broken s = none
  read_fields read_field (field fid value rest) s =
      and_then (read_field fid value s) (read_fields read_field rest)

-- The stream without the fields that a structure does not have.
unfoldable pub known_fields : (ℕ → Value → Bool) → Fields → Fields
known_fields is_known stop = stop
known_fields is_known broken = broken
known_fields is_known (field fid value rest) =
    let known = known_fields is_known rest in
    if is_known fid value then field fid value known else known

module _ {A : Type 0} (read_field : ℕ → Value → A → Option A) (is_known : ℕ → Value → Bool)
    (skipped : (fid : ℕ) (value : Value) (s : A)
      → is_known fid value ≡ false
      → read_field fid value s ≡ some s) where
  known_rest :
      (rest : Fields) (r : Option A)
      → ((s : A)
          → read_fields read_field rest s ≡ read_fields read_field (known_fields is_known rest) s)
      → and_then r (read_fields read_field rest)
        ≡ and_then r (read_fields read_field (known_fields is_known rest))
  known_rest rest none h = refl
  known_rest rest (some s) h = h s

  -- Fields that the structure does not have make no difference to a read, a thrown exception
  -- included.
  pub read_fields-known_fields :
      (fs : Fields) (s : A)
      → read_fields read_field fs s ≡ read_fields read_field (known_fields is_known fs) s
  unfolding read_fields known_fields
  read_fields-known_fields stop s = refl
  read_fields-known_fields broken s = refl
  read_fields-known_fields (field fid value rest) s = elim (Bool-cases (is_known fid value)) [
    | inl h ↦ rw h (known_rest rest (read_field fid value s) (read_fields-known_fields rest))
    | inr h ↦ rw (h, skipped fid value s h) (read_fields-known_fields rest s)
  ]
