-- ===== src/Orchestrator/Lifecycle/Settings.antt =====
-- strconv.Atoi on a setting, as far as Reconcile uses it: the value if it is positive.
use gh_runner.Prelude.{
  ℕ, ◌+◌, ◌-◌, ◌*◌, ◌^◌, Bool, ◌&&◌, Option, none, some, [], ◌∷◌, if◌then◌else◌, leb, ltb, ◌==◌,
  ◌≡◌, ◌<◌, arith, inl, inr, Bool-cases,
}
use gh_runner.Prelude.Text.{GoString}

abbrev is_digit : ℕ → Bool
is_digit d = leb b'0' d && leb d b'9'

digits_from : ℕ → GoString → Option ℕ
digits_from acc [] = some acc
digits_from acc (d ∷ ds) =
    let rest = digits_from (acc * 10 + (d - b'0')) ds in if is_digit d then rest else none

-- At least one digit, and a value that an int64 holds.
in_range : Option ℕ → Option ℕ
in_range none = none
in_range (some n) = if ltb 0 n && ltb n (2 ^ 63) then some n else none

digits : GoString → Option ℕ
unfolding digits_from in_range
digits [] = none
digits (d ∷ ds) = in_range (digits_from 0 (d ∷ ds))

-- A leading `+` is allowed; a leading `-` gives no positive number.
unfoldable pub atoi_positive : GoString → Option ℕ
unfolding digits
atoi_positive [] = none
atoi_positive (d ∷ ds) = if d == b'+' then digits ds else digits (d ∷ ds)

in_range-pos : (o : Option ℕ) (n : ℕ) → in_range o ≡ some n → 0 < n
unfolding in_range
in_range-pos none n e = cc
in_range-pos (some m) n e = ground arith

digits-pos : (s : GoString) (n : ℕ) → digits s ≡ some n → 0 < n
unfolding digits
digits-pos [] n e = cc
digits-pos (d ∷ ds) n e = in_range-pos (digits_from 0 (d ∷ ds)) n e

pub atoi_positive-pos : (s : GoString) (n : ℕ) → atoi_positive s ≡ some n → 0 < n
unfolding atoi_positive
atoi_positive-pos [] n e = cc
atoi_positive-pos (d ∷ ds) n e = elim (Bool-cases (d == b'+')) [
  | inl plus ↦ digits-pos ds n (rw plus at e)
  | inr other ↦ digits-pos (d ∷ ds) n (rw other at e)
]
