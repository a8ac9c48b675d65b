-- ===== src/Source/Eligible.antt =====
-- Which windows the window source of src/plugin/hypr/hypr_window_source.cpp may answer with, stated
-- without the code's tests.
use mathlib.Core.Option.{some-injective}
use mru_switcher.Prelude.{
  subst, sym, ◌∙◌, Bool, filter, ℕ, ◌≡◌, ◌≢◌, ◌↔◌, ◌⊎◌, inl, inr, refl, true, false, ◌&&◌, List, [],
  ◌∷◌, Option, none, some, arith, contains, nat_eq, Option-cases, Bool-cases,
}
use mru_switcher.Window.{WindowRef, Scope, global, monitor, workspace, visible, app}
use mru_switcher.Registry.{WindowIdentityRegistry, resolve}
use mru_switcher.Registry.Resolved.{resolved}
use mru_switcher.Scope.Matches
use mru_switcher.Scope.Matches.{scope_matches_iff}
use mru_switcher.Source.{
  MonitorView, Desktop, is_candidate, shown_workspaces, current_focus, derive_meta, in_scope,
  offered,
}

true-false : ¬ (true ≡ false)
true-false e = cc

-- A workspace is in view when a monitor shows it, or shows it as its special workspace.
abbrev pub InView : List (Option MonitorView) → ℕ → Type 0
InView [] id = ⊥
InView (none ∷ ms) id = InView ms id
InView (some m ∷ ms) id = (m.active_workspace ≡ id) ⊎ (m.active_special ≡ some id) ⊎ InView ms id

module _ (D : Desktop) where
  -- A window belongs to a scope: its monitor, workspace or class is that of the window that has the
  -- focus, if one has it (and, for the class, if that has one), or its workspace is in view.
  abbrev pub Belongs : D.windows.State → Scope → D.windows.Window → Type 0
  Belongs s global w = Unit {0}
  Belongs s monitor w =
      (f : D.windows.Window) → D.focus_window s ≡ some f → D.monitor_id s w ≡ D.monitor_id s f
  Belongs s workspace w =
      (f : D.windows.Window) → D.focus_window s ≡ some f → D.workspace_id s w ≡ D.workspace_id s f
  Belongs s visible w = InView (D.monitors s) (D.workspace_id s w)
  Belongs s app w =
      (f : D.windows.Window)
      → D.focus_window s ≡ some f
      → D.app_class s f ≢ ""
      → D.app_class s w ≡ D.app_class s f

  -- The window may be offered: it is mapped and not hidden, where it is on a special workspace that is
  -- in view, and it belongs to the scope.
  abbrev pub MayShow : D.windows.State → Scope → D.windows.Window → Type 0
  MayShow s scope w =
      (D.is_mapped s w ≡ true)
      × (D.is_hidden s w ≡ false)
      × (D.on_special_workspace s w ≡ true → InView (D.monitors s) (D.workspace_id s w))
      × Belongs s scope w

  -- The identity is that of a window that is alive and may be offered.
  abbrev pub Eligible :
      D.windows.State → Scope → WindowIdentityRegistry D.windows → WindowRef → Type 0
  Eligible s scope r ref =
      (w : D.windows.Window) × (resolve D.windows s ref r ≡ some w)
      × (D.windows.alive s w ≡ true)
      × MayShow s scope w

  InView_lem :
      (ms : List (Option MonitorView)) (id : ℕ)
      → (contains (shown_workspaces D ms) id ≡ true) ↔ InView ms id
  unfolding shown_workspaces
  InView_lem [] id = ground arith
  InView_lem (none ∷ ms) id = InView_lem ms id
  InView_lem (some m ∷ ms) id = elim (Option-cases m.active_special) [
    | inl e ↦ ground (arith, InView_lem ms id)
    | inr (x, e) ↦ ground (arith, InView_lem ms id)
  ]

  seen-InView :
      (s : D.windows.State) (id : ℕ)
      → (contains (current_focus D s).visible_workspaces id ≡ true) ↔ InView (D.monitors s) id
  unfolding current_focus
  seen-InView s id = elim (Option-cases (D.focus_window s)) [
    | inl e ↦ rw (e, current_focus) (InView_lem (D.monitors s) id)
    | inr (f, e) ↦ rw (e, current_focus) (InView_lem (D.monitors s) id)
  ]

  Belongs_lem :
      (s : D.windows.State) (scope : Scope) (w : D.windows.Window)
      → Matches.Belongs scope (derive_meta D s w (current_focus D s)) (current_focus D s)
        ↔ Belongs s scope w
  unfolding derive_meta current_focus
  Belongs_lem s global w = ground arith
  Belongs_lem s visible w = seen-InView s (D.workspace_id s w)
  Belongs_lem s monitor w = elim (Option-cases (D.focus_window s)) [
    | inl e ↦ rw (e, current_focus) (ground arith)
    | inr (f, e) ↦
        rw (e, current_focus)
          (
            (λ h g k.
                subst (λ x. D.monitor_id s w ≡ D.monitor_id s x) (some-injective f g k) (h refl)),
            (λ h _. h f refl),
          )
  ]
  Belongs_lem s workspace w = elim (Option-cases (D.focus_window s)) [
    | inl e ↦ rw (e, current_focus) (ground arith)
    | inr (f, e) ↦
        rw (e, current_focus)
          (
            (λ h g k.
                subst (λ x. D.workspace_id s w ≡ D.workspace_id s x) (some-injective f g k)
                  (h refl)),
            (λ h _. h f refl),
          )
  ]
  Belongs_lem s app w = elim (Option-cases (D.focus_window s)) [
    | inl e ↦ rw (e, current_focus) (ground arith)
    | inr (f, e) ↦
        rw (e, current_focus)
          (
            (λ h g k.
                subst (λ x. D.app_class s x ≢ "" → D.app_class s w ≡ D.app_class s x)
                  (some-injective f g k) (h refl)),
            (λ h _. h f refl),
          )
  ]

  -- The tests of the source hold of exactly the windows that may be offered.
  MayShow_lem :
      (s : D.windows.State) (scope : Scope) (w : D.windows.Window)
      → ((is_candidate D s w && in_scope D s scope w) ≡ true) ↔ MayShow s scope w
  unfolding is_candidate in_scope derive_meta
  MayShow_lem s scope w =
      let f = current_focus D s in
      ground (
        arith,
        scope_matches_iff scope (derive_meta D s w f) f,
        Belongs_lem s scope w,
        seen-InView s (D.workspace_id s w),
      )

  pub offered_iff :
      (s : D.windows.State) (scope : Scope) (r : WindowIdentityRegistry D.windows) (ref : WindowRef)
      → (offered D s scope r ref ≡ true) ↔ Eligible s scope r ref
  unfolding offered
  offered_iff s scope r ref = elim (Option-cases (resolve D.windows s ref r)) [
    | inl e ↦ ((λ h. absurd (ground arith)), (λ (w, f, _, _). absurd (ground arith)))
    | inr (w, e) ↦
        let (_, _, _, _, _, a) = resolved D.windows s w r ref e in
        let (shows, tests) = MayShow_lem s scope w in
        (
          (λ h. (w, e, a, shows (ground arith))),
          (λ (v, f, _, m).
              let same : v ≡ w = ground arith in
              let passes : (is_candidate D s w && in_scope D s scope w) ≡ true =
                tests (subst (MayShow s scope) same m) in
              ground arith),
        )
  ]

-- The second list has those of the first that satisfy the predicate, in their order.
abbrev pub Picked : (WindowRef → Type 0) → List WindowRef → List WindowRef → Type 0
Picked P [] ys = ys ≡ []
Picked P (x ∷ xs) ys =
    (P x × (zs : List WindowRef) × (ys ≡ x ∷ zs) × Picked P xs zs) ⊎ (¬ P x × Picked P xs ys)

pub filter-Picked :
    (P : WindowRef → Type 0) (p : WindowRef → Bool) (xs : List WindowRef)
    → ((x : WindowRef) → (p x ≡ true) ↔ P x)
    → Picked P xs (filter p xs)
filter-Picked P p [] f = refl
filter-Picked P p (x ∷ xs) f = elim (Bool-cases (p x)) [
  | inl e ↦ inl ((f x).0 e, filter p xs, ground arith, filter-Picked P p xs f)
  | inr e ↦
      let skipped : filter p (x ∷ xs) ≡ filter p xs = ground arith in
      inr (
        (λ h. absurd (true-false (sym ((f x).1 h) ∙ e))),
        subst (Picked P xs) (sym skipped) (filter-Picked P p xs f),
      )
]
