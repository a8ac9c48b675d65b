-- ===== src/Merge.antt =====
-- src/plugin/mru_merge.cpp: the plugin's order of use, then the windows that it does not hold.
use mru_switcher.Prelude.{
  ◌≡◌, refl, ◌∙◌, sym, ap, Bool-cases, inl, inr, Bool, false, ◌||◌, not, List, [], ◌∷◌, ◌++◌, arith,
  if◌then◌else◌, contains, Distinct, contains-append, filter,
}
use mathlib.Core.List.{append_assoc, append-nil}
use mru_switcher.Window.{WindowRef, window_eq, ref_eq_iff}

unfoldable pub push_unique : List WindowRef → WindowRef → List WindowRef
push_unique out ref = if contains out ref then out else out ++ ref ∷ []

-- One of the two loops.
unfoldable pub push_all : List WindowRef → List WindowRef → List WindowRef
unfolding push_unique
push_all out [] = out
push_all out (ref ∷ rest) = push_all (push_unique out ref) rest

unfoldable pub merge_mru_order : List WindowRef → List WindowRef → List WindowRef
merge_mru_order primary fallback = push_all (push_all [] primary) fallback

Distinct-push :
    (out : List WindowRef) (r : WindowRef)
    → Distinct out
    → contains out r ≡ false
    → Distinct (out ++ r ∷ [])
Distinct-push [] r d h = (refl, tt)
Distinct-push (x ∷ out) r d h =
    ground (
      arith,
      contains-append out (r ∷ []) x,
      ref_eq_iff x r,
      ref_eq_iff r x,
      Distinct-push out r d.1,
    )

Distinct-push_all : (out rs : List WindowRef) → Distinct out → Distinct (push_all out rs)
unfolding push_all
Distinct-push_all out [] d = d
Distinct-push_all out (r ∷ rs) d =
    Distinct-push_all (push_unique out r) rs (ground (arith, Distinct-push out r d))

contains-push_all :
    (out rs : List WindowRef) (a : WindowRef)
    → contains (push_all out rs) a ≡ (contains out a || contains rs a)
unfolding push_all
contains-push_all out [] a = ground arith
contains-push_all out (r ∷ rs) a =
    contains-push_all (push_unique out r) rs a
    ∙ ground (arith, contains-append out (r ∷ []) a, ref_eq_iff r a)

-- Which of the windows come from the list: those that are not in front of it already.
abbrev pub new_ones : List WindowRef → List WindowRef → List WindowRef
new_ones out rs = filter (λ r. not (contains out r)) rs

new_ones-snoc :
    (out rs : List WindowRef) (r : WindowRef)
    → contains rs r ≡ false
    → new_ones (out ++ r ∷ []) rs ≡ new_ones out rs
new_ones-snoc out [] r h = refl
new_ones-snoc out (x ∷ rs) r h =
    ground (
      arith,
      contains-append out (r ∷ []) x,
      ref_eq_iff x r,
      ref_eq_iff r x,
      new_ones-snoc out rs r,
    )

-- A list with no repetition is passed on as it is, less the windows that are there.
push_all-eq : (out rs : List WindowRef) → Distinct rs → push_all out rs ≡ out ++ new_ones out rs
unfolding push_all
push_all-eq out [] d = sym (append-nil out)
push_all-eq out (r ∷ rs) d = elim (Bool-cases (contains out r)) [
  | inl h ↦ ground (arith, push_all-eq out rs d.1)
  | inr h ↦
      rw (h, push_unique)
        (push_all-eq (out ++ r ∷ []) rs d.1
          ∙ ap (λ (xs : List WindowRef). (out ++ r ∷ []) ++ xs) (new_ones-snoc out rs r d.0)
          ∙ append_assoc out (r ∷ []) (new_ones out rs))
]

push_all-extends :
    (out rs : List WindowRef) → (rest : List WindowRef) × (push_all out rs ≡ out ++ rest)
unfolding push_all
push_all-extends out [] = ([], sym (append-nil out))
push_all-extends out (r ∷ rs) = elim (Bool-cases (contains out r)) [
  | inl h ↦ let (rest, e) = push_all-extends out rs in (rest, ground arith)
  | inr h ↦
      let (rest, e) = push_all-extends (out ++ r ∷ []) rs in
      (r ∷ rest, rw (h, push_unique) (e ∙ append_assoc out (r ∷ []) rest))
]

new_ones-nil : (rs : List WindowRef) → new_ones [] rs ≡ rs
new_ones-nil [] = refl
new_ones-nil (r ∷ rs) = ground (arith, new_ones-nil rs)

push_all-nil : (rs : List WindowRef) → Distinct rs → push_all [] rs ≡ rs
push_all-nil rs d = push_all-eq [] rs d ∙ new_ones-nil rs

-- The merged list names no window twice and holds exactly the windows of both lists; when the first
-- names none twice, it stands in front as it is, and when the second does neither, what follows is
-- the second list without the windows of the first, in its order.
pub merge_mru_order_lem :
    (primary fallback : List WindowRef)
    → let merged = merge_mru_order primary fallback in
      Distinct merged
      × ((a : WindowRef) → contains merged a ≡ (contains primary a || contains fallback a))
      × (Distinct primary → (rest : List WindowRef) × (merged ≡ primary ++ rest))
      × (Distinct primary → Distinct fallback → merged ≡ primary ++ new_ones primary fallback)
unfolding merge_mru_order
merge_mru_order_lem primary fallback = (
  Distinct-push_all (push_all [] primary) fallback (Distinct-push_all [] primary tt),
  λ a.
      contains-push_all (push_all [] primary) fallback a
      ∙ ap (λ (b : Bool). b || contains fallback a) (contains-push_all [] primary a),
  λ d. rw (push_all-nil primary d) (push_all-extends primary fallback),
  λ d e. rw (push_all-nil primary d) (push_all-eq primary fallback e),
)
