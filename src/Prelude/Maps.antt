-- ===== src/Prelude/Maps.antt =====
-- `std::unordered_map` with numbers for keys, as a list of pairs whose keys are distinct.
use Prim.Native.Nat.{ℕ}
use mathlib.Core.Path.{◌≡◌, refl}
use mathlib.Core.Bool.{Bool}
use mathlib.Core.List.{List, [], ◌∷◌}
use mathlib.Core.Option.{Option, none, some}
use native.Mathlib.Omega.{arith}
use mru_switcher.Prelude.Tests.{if◌then◌else◌, ◌==◌, ◌>>=◌}

module _ {ℓ} {V : Type ℓ} where
  abbrev pub lookup : ℕ → List (ℕ × V) → Option V
  lookup k [] = none
  lookup k ((j, v) ∷ m) = if j == k then some v else lookup k m

  -- `m[k] = v`
  abbrev pub set : ℕ → V → List (ℕ × V) → List (ℕ × V)
  set k v [] = (k, v) ∷ []
  set k v ((j, w) ∷ m) = if j == k then (k, v) ∷ m else (j, w) ∷ set k v m

  -- The loop that erases the entries that pass a test.
  abbrev pub erase_if : (V → Bool) → List (ℕ × V) → List (ℕ × V)
  erase_if p [] = []
  erase_if p ((j, v) ∷ m) = if p v then erase_if p m else (j, v) ∷ erase_if p m

  abbrev pub UniqueKeys : List (ℕ × V) → Type ℓ
  UniqueKeys [] = Unit
  UniqueKeys ((j, v) ∷ m) = (lookup j m ≡ none) × UniqueKeys m

  pub lookup-set :
      (k : ℕ) (v : V) (m : List (ℕ × V)) (j : ℕ)
      → lookup j (set k v m) ≡ (if k == j then some v else lookup j m)
  lookup-set k v [] j = refl
  lookup-set k v ((i, w) ∷ m) j = ground (arith, lookup-set k v m j)

  pub UniqueKeys-set : (k : ℕ) (v : V) (m : List (ℕ × V)) → UniqueKeys m → UniqueKeys (set k v m)
  UniqueKeys-set k v [] u = (refl, tt)
  UniqueKeys-set k v ((i, w) ∷ m) u = ground (arith, lookup-set k v m i, UniqueKeys-set k v m u.1)

  pub lookup-erase_if :
      (p : V → Bool) (m : List (ℕ × V)) (k : ℕ)
      → UniqueKeys m
      → lookup k (erase_if p m) ≡ (lookup k m >>= λ v. if p v then none else some v)
  lookup-erase_if p [] k u = refl
  lookup-erase_if p ((i, w) ∷ m) k u = ground (arith, lookup-erase_if p m k u.1)

  pub UniqueKeys-erase_if :
      (p : V → Bool) (m : List (ℕ × V)) → UniqueKeys m → UniqueKeys (erase_if p m)
  UniqueKeys-erase_if p [] u = tt
  UniqueKeys-erase_if p ((i, w) ∷ m) u =
      ground (arith, lookup-erase_if p m i u.1, UniqueKeys-erase_if p m u.1)
