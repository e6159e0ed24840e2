-- ===== src/Prelude/Dict.antt =====
-- A Go map with string keys: an association list, iterated in list order.
use Prim.Native.Nat.{ℕ, ◌+◌, ◌≤◌}
use mathlib.Core.Path.{◌≡◌, refl, subst}
use mathlib.Core.Logic.{inl, inr}
use mathlib.Core.List.{List, [], ◌∷◌}
use mathlib.Core.Option.{Option, none, some}
use native.Mathlib.Omega.{arith}
use gh_runner.Prelude.Tests.{if◌then◌else◌, Bool-cases}
use gh_runner.Prelude.Lists.{All}
use gh_runner.Prelude.Text.{GoString, text_eq, text_eq_iff}

abbrev pub Dict {ℓ} : Type ℓ → Type ℓ
Dict V = List (GoString × V)

module _ {ℓ} {V : Type ℓ} where
  unfoldable pub lookup : GoString → Dict V → Option V
  lookup k [] = none
  lookup k ((j, v) ∷ m) = if text_eq j k then some v else lookup k m

  unfoldable pub insert : GoString → V → Dict V → Dict V
  insert k v [] = (k, v) ∷ []
  insert k v ((j, w) ∷ m) = if text_eq j k then (k, v) ∷ m else (j, w) ∷ insert k v m

  unfoldable pub delete : GoString → Dict V → Dict V
  delete k [] = []
  delete k ((j, w) ∷ m) = if text_eq j k then delete k m else (j, w) ∷ delete k m

  unfoldable pub values : Dict V → List V
  values [] = []
  values ((j, v) ∷ m) = v ∷ values m

  -- The sum of a weight over the values.
  unfoldable pub weigh : (V → ℕ) → Dict V → ℕ
  weigh f [] = 0
  weigh f ((j, v) ∷ m) = f v + weigh f m

  abbrev pub weigh_at : (V → ℕ) → Option V → ℕ
  weigh_at f none = 0
  weigh_at f (some v) = f v

  pub lookup-insert :
      (k j : GoString) (v : V) (m : Dict V)
      → lookup j (insert k v m) ≡ (if text_eq k j then some v else lookup j m)
  unfolding lookup insert
  lookup-insert k j v [] = refl
  lookup-insert k j v ((i, w) ∷ m) =
      ground (arith, text_eq_iff k j, text_eq_iff i k, text_eq_iff i j, lookup-insert k j v m)

  pub lookup-delete :
      (k j : GoString) (m : Dict V)
      → lookup j (delete k m) ≡ (if text_eq k j then none else lookup j m)
  unfolding lookup delete
  lookup-delete k j [] = ground arith
  lookup-delete k j ((i, w) ∷ m) =
      ground (arith, text_eq_iff k j, text_eq_iff i k, text_eq_iff i j, lookup-delete k j m)

  pub weigh-insert :
      (f : V → ℕ) (k : GoString) (v : V) (m : Dict V)
      → weigh f (insert k v m) + weigh_at f (lookup k m) ≡ weigh f m + f v
  unfolding lookup insert weigh
  weigh-insert f k v [] = omega arith
  weigh-insert f k v ((i, w) ∷ m) = ground (arith, weigh-insert f k v m)

  -- Deleting a key takes at least the weight found at it.
  pub weigh-delete :
      (f : V → ℕ) (k : GoString) (m : Dict V)
      → weigh f (delete k m) + weigh_at f (lookup k m) ≤ weigh f m
  unfolding lookup delete weigh
  weigh-delete f k [] = omega arith
  weigh-delete f k ((i, w) ∷ m) = ground (arith, weigh-delete f k m)

  pub weigh_at-le : (f : V → ℕ) (k : GoString) (m : Dict V) → weigh_at f (lookup k m) ≤ weigh f m
  unfolding lookup weigh
  weigh_at-le f k [] = omega arith
  weigh_at-le f k ((i, w) ∷ m) = ground (arith, weigh_at-le f k m)

  -- No key stands twice.
  abbrev pub Distinct : Dict V → Type ℓ
  Distinct [] = Unit
  Distinct ((k, v) ∷ m) = (lookup k m ≡ none) × Distinct m

  pub insert-Distinct : (k : GoString) (v : V) (m : Dict V) → Distinct m → Distinct (insert k v m)
  unfolding insert lookup
  insert-Distinct k v [] d = (refl, tt)
  insert-Distinct k v ((i, w) ∷ m) d =
      ground
        (arith, text_eq_iff i k, text_eq_iff k i, insert-Distinct k v m d.1, lookup-insert k i v m)

  pub delete-Distinct : (k : GoString) (m : Dict V) → Distinct m → Distinct (delete k m)
  unfolding delete lookup
  delete-Distinct k [] d = tt
  delete-Distinct k ((i, w) ∷ m) d =
      ground (arith, text_eq_iff k i, delete-Distinct k m d.1, lookup-delete k i m)

-- A predicate of every entry.
module _ {ℓ κ} {V : Type ℓ} (P : GoString × V → Type κ) where
  pub All-insert : (k : GoString) (v : V) (m : Dict V) → P (k, v) → All P m → All P (insert k v m)
  unfolding insert
  All-insert k v [] h hs = (h, tt)
  All-insert k v ((i, w) ∷ m) h hs = ground (arith, All-insert k v m h hs.1)

  pub All-delete : (k : GoString) (m : Dict V) → All P m → All P (delete k m)
  unfolding delete
  All-delete k [] hs = tt
  All-delete k ((i, w) ∷ m) hs = ground (arith, All-delete k m hs.1)

  pub All-lookup : (k : GoString) (v : V) (m : Dict V) → lookup k m ≡ some v → All P m → P (k, v)
  unfolding lookup
  All-lookup k v [] e hs = cc
  All-lookup k v ((i, w) ∷ m) e hs = elim (Bool-cases (text_eq i k)) [
    | inl hit ↦
        let e' : some w ≡ some v = (rw hit at e) in subst P (ground (arith, text_eq_iff i k)) hs.0
    | inr miss ↦ All-lookup k v m (rw miss at e) hs.1
  ]
