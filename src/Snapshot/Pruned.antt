-- ===== src/Snapshot/Pruned.antt =====
-- Pruning keeps exactly the valid windows, in their order.
use mathlib.Core.List.{Sublistᴰ}
use mru_switcher.Prelude.{
  ◌≡◌, refl, ◌↔◌, Bool, true, false, ◌&&◌, List, [], ◌∷◌, none, some, arith, contains, filter, All,
  All-filter, contains-filter, filter-filter, inl, inr, ◌⊎◌,
}
use mru_switcher.Window.{WindowRef, window_eq}
use mru_switcher.Snapshot.{Snapshot, pruned, empty}

abbrev pub survivors : (WindowRef → Bool) → Snapshot → Snapshot
survivors is_valid s = record { windows = filter is_valid s.windows; scope = s.scope }

-- A list that is a part of another, in its order.
abbrev pub InOrder : List WindowRef → List WindowRef → Type 0
InOrder = Sublistᴰ

filter-InOrder : (p : WindowRef → Bool) (xs : List WindowRef) → InOrder (filter p xs) xs
filter-InOrder p [] = Sublistᴰ.slnil
filter-InOrder p (x ∷ xs) = ground (
  arith,
  filter-InOrder p xs,
  Sublistᴰ.cons {a = x} (filter-InOrder p xs),
  Sublistᴰ.cons-cons {a = x} refl (filter-InOrder p xs),
)

module _ (is_valid : WindowRef → Bool) where
  pub pruned_cases :
      (s : Snapshot)
      → ((filter is_valid s.windows ≡ []) × (pruned is_valid s ≡ none))
        ⊎ ((empty (survivors is_valid s) ≡ false)
            × (pruned is_valid s ≡ some (survivors is_valid s)))
  unfolding pruned
  pruned_cases s = ground arith

  pub pruned-eq-some : (s t : Snapshot) → pruned is_valid s ≡ some t → t ≡ survivors is_valid s
  pruned-eq-some s t h = elim (pruned_cases s) [ inl (_, e) ↦ cc | inr (_, e) ↦ cc ]

  -- What pruning leaves has the scope of the snapshot and holds the windows in the same order; all
  -- of them are valid, a window is left exactly when it was there and is valid, one is left at
  -- least, and to prune again changes nothing.
  pub pruned-some :
      (s t : Snapshot)
      → pruned is_valid s ≡ some t
      → (t.scope ≡ s.scope)
        × InOrder t.windows s.windows
        × All (λ r. is_valid r ≡ true) t.windows
        × ((r : WindowRef) → contains t.windows r ≡ (contains s.windows r && is_valid r))
        × (empty t ≡ false)
        × (pruned is_valid t ≡ some t)
  unfolding pruned
  pruned-some s t h = elim (pruned_cases s) [
    | inl (_, e) ↦ cc
    | inr (full, e) ↦
        let q = pruned-eq-some s t h in
        rw q (
          refl,
          filter-InOrder is_valid s.windows,
          All-filter is_valid s.windows,
          contains-filter is_valid s.windows,
          full,
          ground (arith, filter-filter is_valid s.windows),
        )
  ]

  none_valid : (xs : List WindowRef) → (filter is_valid xs ≡ []) ↔ All (λ r. is_valid r ≡ false) xs
  none_valid [] = (λ _. tt, λ _. refl)
  none_valid (x ∷ xs) = ground (arith, none_valid xs)

  -- Nothing is left exactly when no window is valid.
  pub pruned-none :
      (s : Snapshot) → (pruned is_valid s ≡ none) ↔ All (λ r. is_valid r ≡ false) s.windows
  unfolding pruned
  pruned-none s = ground (arith, none_valid s.windows)
