-- ===== src/Prelude/Finds.antt =====
-- `std::find` and `std::remove` over a list: membership, removal and lists with no repetition, over
-- any type with an equality.
use mathlib.Core.Path.{◌≡◌, refl}
use mathlib.Core.Bool.{Bool, false, ◌&&◌, ◌||◌, not}
use mathlib.Core.List.{List, [], ◌∷◌, ◌++◌}
use native.Mathlib.Omega.{arith}
use mru_switcher.Prelude.Tests.{if◌then◌else◌, Eq}
use mru_switcher.Prelude.Lists.{filter}

module _ {ℓ} {A : Type ℓ} ⦃e : Eq A⦄ where
  -- `std::find(xs.begin(), xs.end(), a) != xs.end()`
  abbrev pub contains : List A → A → Bool
  contains [] a = false
  contains (x ∷ xs) a = e.beq x a || contains xs a

  -- `xs.erase(std::remove(xs.begin(), xs.end(), a), xs.end())`
  abbrev pub remove : A → List A → List A
  remove a [] = []
  remove a (x ∷ xs) = if e.beq x a then remove a xs else x ∷ remove a xs

  -- No element stands twice.
  abbrev pub Distinct : List A → Type 0
  Distinct [] = Unit {0}
  Distinct (x ∷ xs) = (contains xs x ≡ false) × Distinct xs

  pub contains-append :
      (xs ys : List A) (a : A) → contains (xs ++ ys) a ≡ (contains xs a || contains ys a)
  contains-append [] ys a = refl
  contains-append (x ∷ xs) ys a = ground (arith, contains-append xs ys a)

  pub contains-filter :
      (p : A → Bool) (xs : List A) (a : A) → contains (filter p xs) a ≡ (contains xs a && p a)
  contains-filter p [] a = refl
  contains-filter p (x ∷ xs) a = ground (arith, e.beq_iff x a, contains-filter p xs a)

  pub contains-remove :
      (b : A) (xs : List A) (a : A) → contains (remove b xs) a ≡ (contains xs a && not (e.beq a b))
  contains-remove b [] a = refl
  contains-remove b (x ∷ xs) a =
      ground (arith, e.beq_iff x a, e.beq_iff x b, e.beq_iff a b, contains-remove b xs a)

  pub contains-remove_self : (a : A) (xs : List A) → contains (remove a xs) a ≡ false
  contains-remove_self a xs = ground (arith, contains-remove a xs a, e.beq_iff a a)

  pub Distinct-filter : (p : A → Bool) (xs : List A) → Distinct xs → Distinct (filter p xs)
  Distinct-filter p [] d = tt
  Distinct-filter p (x ∷ xs) d = ground (arith, contains-filter p xs x, Distinct-filter p xs d.1)

  pub Distinct-remove : (a : A) (xs : List A) → Distinct xs → Distinct (remove a xs)
  Distinct-remove a [] d = tt
  Distinct-remove a (x ∷ xs) d = ground (arith, contains-remove a xs x, Distinct-remove a xs d.1)

  -- Removing what is not there changes nothing.
  pub remove_absent : (a : A) (xs : List A) → contains xs a ≡ false → remove a xs ≡ xs
  remove_absent a [] h = refl
  remove_absent a (x ∷ xs) h = ground (arith, remove_absent a xs)
