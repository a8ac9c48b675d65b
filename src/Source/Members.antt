-- ===== src/Source/Members.antt =====
-- Properties of all the members of a list, and of a merge of two.
use mru_switcher.Prelude.{
  ◌≡◌, true, List, [], ◌∷◌, ◌++◌, arith, contains, subst, All, Bool-cases, inl, inr,
}
use mru_switcher.Window.{WindowRef, window_eq, ref_eq, ref_eq_iff}
use mru_switcher.Merge.{merge_mru_order, merge_mru_order_lem}

pub All-append {ℓ} :
    {A : Type ℓ} (P : A → Type 0) (xs ys : List A) → All P xs → All P ys → All P (xs ++ ys)
All-append P [] ys h k = k
All-append P (x ∷ xs) ys h k = (h.0, All-append P xs ys h.1 k)

pub All-map {ℓ} :
    {A : Type ℓ} (P Q : A → Type 0) (xs : List A) → ((a : A) → P a → Q a) → All P xs → All Q xs
All-map P Q [] f h = tt
All-map P Q (x ∷ xs) f h = (f x h.0, All-map P Q xs f h.1)

member :
    (P : WindowRef → Type 0) (xs : List WindowRef) (a : WindowRef)
    → All P xs
    → contains xs a ≡ true
    → P a
member P [] a h e = cc
member P (x ∷ xs) a h e = elim (Bool-cases (ref_eq x a)) [
  | inl f ↦ subst P ((ref_eq_iff x a).0 f) h.0
  | inr f ↦ member P xs a h.1 (ground arith)
]

members :
    (P : WindowRef → Type 0) (xs : List WindowRef)
    → ((a : WindowRef) → contains xs a ≡ true → P a)
    → All P xs
members P [] f = tt
members P (x ∷ xs) f =
    (f x (ground (arith, ref_eq_iff x x)), members P xs (λ a e. f a (ground arith)))

pub All-merge :
    (P : WindowRef → Type 0) (xs ys : List WindowRef)
    → All P xs
    → All P ys
    → All P (merge_mru_order xs ys)
All-merge P xs ys h k = members P (merge_mru_order xs ys) λ a e.
    let (_, both, _, _) = merge_mru_order_lem xs ys in
    elim (Bool-cases (contains xs a)) [
      | inl f ↦ member P xs a h f
      | inr f ↦ member P ys a k (ground (arith, both a))
    ]
