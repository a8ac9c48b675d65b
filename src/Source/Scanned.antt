-- ===== src/Source/Scanned.antt =====
-- What the loop over the compositor's history in src/plugin/hypr/hypr_window_source.cpp registers.
use mathlib.Core.List.{reverse, reverse_aux}
use mru_switcher.Prelude.{
  ◌≡◌, refl, true, false, ◌&&◌, if◌then◌else◌, ◌++◌, List, [], ◌∷◌, some, arith, All, subst,
  Bool-cases, inl, inr, sym,
}
use mru_switcher.Window.{WindowRef, Scope}
use mru_switcher.Registry.{WindowIdentityRegistry, register_window, resolve}
use mru_switcher.Registry.Laws as Registry
use mru_switcher.Registry.Resolved
use mru_switcher.Source.{Desktop, is_candidate, in_scope, scan, scanned}

All-reverse_aux :
    {A : Type 0} (P : A → Type 0) (xs ys : List A) → All P (reverse_aux xs ys) → All P xs × All P ys
All-reverse_aux P [] ys h = (tt, h)
All-reverse_aux P (x ∷ xs) ys h = let (k, (p, l)) = All-reverse_aux P xs (x ∷ ys) h in ((p, k), l)

module _ (D : Desktop) (s : D.windows.State) (scope : Scope) where
  abbrev Progress : Type 0
  Progress = WindowIdentityRegistry D.windows × List WindowRef

  -- The window has an identity that resolves to it.
  abbrev pub IsKnown : WindowIdentityRegistry D.windows → D.windows.Window → Type 0
  IsKnown r v = (ref : WindowRef) × (resolve D.windows s ref r ≡ some v)

  -- It has one, if it is alive and a candidate.
  abbrev pub IsCovered : WindowIdentityRegistry D.windows → D.windows.Window → Type 0
  IsCovered r v = (D.windows.alive s v && is_candidate D s v) ≡ true → IsKnown r v

  -- What the turn of the loop makes of a window that is registered.
  abbrev taken : D.windows.Window → Progress → Progress
  taken w (r, fallback) =
      let q = register_window D.windows s w r in
      (q.0, (if in_scope D s scope w then fallback ++ q.1 ∷ [] else fallback))

  scan-taken :
      (w : D.windows.Window) (ws : List D.windows.Window) (acc : Progress)
      → (D.windows.alive s w && is_candidate D s w) ≡ true
      → scan D s scope (w ∷ ws) acc ≡ scan D s scope ws (taken w acc)
  unfolding scan
  scan-taken w ws (r, fallback) e = rw (e, scan) refl

  scan-passed :
      (w : D.windows.Window) (ws : List D.windows.Window) (acc : Progress)
      → (D.windows.alive s w && is_candidate D s w) ≡ false
      → scan D s scope (w ∷ ws) acc ≡ scan D s scope ws acc
  unfolding scan
  scan-passed w ws (r, fallback) e = rw (e, scan) refl

  scan-keeps :
      (ws : List D.windows.Window) (acc : Progress) (v : D.windows.Window)
      → Registry.IsValid D.windows acc.0
      → IsKnown acc.0 v
      → IsKnown (scan D s scope ws acc).0 v
  unfolding scan
  scan-keeps [] acc v u k = k
  scan-keeps (w ∷ ws) (r, fallback) v u (ref, k) =
      elim (Bool-cases (D.windows.alive s w && is_candidate D s w)) [
        | inl e ↦
            let a : D.windows.alive s w ≡ true = ground arith in
            subst (λ (p : Progress). IsKnown p.0 v) (sym (scan-taken w ws (r, fallback) e))
              (scan-keeps ws (taken w (r, fallback)) v
                (Registry.register_window-IsValid D.windows s w r u)
                (ref, Resolved.resolve-register D.windows s w v r ref (D.alive-unique s) u a k))
        | inr e ↦
            subst (λ (p : Progress). IsKnown p.0 v) (sym (scan-passed w ws (r, fallback) e))
              (scan-keeps ws (r, fallback) v u (ref, k))
      ]

  pub scan-covers :
      (ws : List D.windows.Window) (acc : Progress)
      → Registry.IsValid D.windows acc.0
      → All (IsCovered (scan D s scope ws acc).0) ws
  scan-covers [] acc u = tt
  scan-covers (w ∷ ws) (r, fallback) u =
      elim (Bool-cases (D.windows.alive s w && is_candidate D s w)) [
        | inl e ↦
            let a : D.windows.alive s w ≡ true = ground arith in
            let (f, _, _, _) = Registry.register_window_lem D.windows s w r a in
            let next = taken w (r, fallback) in
            let valid = Registry.register_window-IsValid D.windows s w r u in
            subst (λ (p : Progress). All (IsCovered p.0) (w ∷ ws))
              (sym (scan-taken w ws (r, fallback) e))
              (
                (λ _. scan-keeps ws next w valid ((register_window D.windows s w r).1, f)),
                scan-covers ws next valid,
              )
        | inr e ↦
            subst (λ (p : Progress). All (IsCovered p.0) (w ∷ ws))
              (sym (scan-passed w ws (r, fallback) e))
              ((λ h. absurd (ground arith)), scan-covers ws (r, fallback) u)
      ]

  pub scanned-covers :
      (r : WindowIdentityRegistry D.windows) (entries : List D.windows.Window)
      → Registry.IsValid D.windows r
      → D.history s ≡ some entries
      → All (IsCovered (scanned D scope (s, r)).0) entries
  unfolding scanned
  scanned-covers r entries u e =
      let covered = scan-covers (reverse entries) (r, []) u in
      rw (e, scanned)
        ((All-reverse_aux (IsCovered (scan D s scope (reverse entries) (r, [])).0) entries []
          covered).0)
