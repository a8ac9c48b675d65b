-- ===== src/Source/Answer.antt =====
-- What the window source answers, and that it is the window source of the sessions.
use mathlib.Core.List.{reverse}
use mru_switcher.Prelude.{
  ◌≤◌, ◌≡◌, refl, some, Bool, contains-append, contains-filter, true, ◌&&◌, List, [], ◌∷◌, ◌++◌,
  arith, filter, contains, Distinct, Distinct-filter, length, All, All-filter, if_cases,
  Option-cases, inl, inr,
}
use mru_switcher.Window.{WindowRef, window_eq, Scope}
use mru_switcher.Registry.{WindowIdentityRegistry, register_window, resolve, live_refs_newest_first}
use mru_switcher.Registry.Laws as Registry
use mru_switcher.Registry.Resolved
use mru_switcher.Registry.Live.{resolve-live}
use mru_switcher.Source.Scanned.{IsCovered, scanned-covers}
use mru_switcher.Source.Eligible.{Eligible, MayShow, Picked, filter-Picked, offered_iff}
use mru_switcher.Source.Members.{All-append, All-map, All-merge}
use mru_switcher.Merge.{merge_mru_order, merge_mru_order_lem}
use mru_switcher.Ports.{Ports}
use mru_switcher.Source.{
  Desktop, World, is_candidate, in_scope, scan, offered, scanned, candidates, is_valid, focused,
  announce, focus,
}

module _ (D : Desktop) where
  length-announce :
      (s : D.windows.State) (ws : List D.windows.Window) (r : WindowIdentityRegistry D.windows)
      → length (announce D s ws r).1 ≡ length ws
  unfolding announce
  length-announce s [] r = refl
  length-announce s (w ∷ ws) r =
      omega (arith, length-announce s ws (register_window D.windows s w r).0)

  pub focus-burst : (r : WindowRef) (w : World D) → length (focus D r w).activated ≤ D.burst
  unfolding focus
  focus-burst ref (s, r) = elim (Option-cases (resolve D.windows s ref r)) [
    | inl e ↦ rw (e, focus) (omega arith)
    | inr (w, e) ↦
        rw (e, focus)
          (omega (
            arith,
            D.announced-le-burst s w,
            length-announce (D.full_window_focus s w).0 (D.full_window_focus s w).1 r,
          ))
  ]

  -- The compositor as the ports of the sessions.
  abbrev pub hypr_ports : Ports
  hypr_ports = record {
    World = World D;
    candidates = candidates D;
    is_valid = is_valid D;
    focused = focused D;
    focus = focus D;
    burst = D.burst;
    activated-le-burst = focus-burst;
  }

  -- A window that is offered stays so while others are registered.
  offered-register :
      (s : D.windows.State) (scope : Scope) (w : D.windows.Window)
      (r : WindowIdentityRegistry D.windows) (ref : WindowRef)
      → Registry.IsValid D.windows r
      → D.windows.alive s w ≡ true
      → offered D s scope r ref ≡ true
      → offered D s scope (register_window D.windows s w r).0 ref ≡ true
  unfolding offered
  offered-register s scope w r ref u a h = elim (Option-cases (resolve D.windows s ref r)) [
    | inl e ↦ ground arith
    | inr (v, e) ↦
        ground (arith, Resolved.resolve-register D.windows s w v r ref (D.alive-unique s) u a e)
  ]

  offered-new :
      (s : D.windows.State) (scope : Scope) (w : D.windows.Window)
      (r : WindowIdentityRegistry D.windows)
      → D.windows.alive s w ≡ true
      → is_candidate D s w ≡ true
      → in_scope D s scope w ≡ true
      → let q = register_window D.windows s w r in offered D s scope q.0 q.1 ≡ true
  unfolding offered
  offered-new s scope w r a c h =
      let (e, _, _, _) = Registry.register_window_lem D.windows s w r a in
      rw (e, offered) (ground arith)

  abbrev Fine : D.windows.State → Scope → WindowIdentityRegistry D.windows × List WindowRef → Type 0
  Fine s scope (r, refs) =
      Registry.IsValid D.windows r × All (λ ref. offered D s scope r ref ≡ true) refs

  scan-Fine :
      (s : D.windows.State) (scope : Scope) (ws : List D.windows.Window)
      (acc : WindowIdentityRegistry D.windows × List WindowRef)
      → Fine s scope acc
      → Fine s scope (scan D s scope ws acc)
  unfolding scan
  scan-Fine s scope [] acc h = h
  scan-Fine s scope (w ∷ ws) (r, fallback) (u, h) = scan-Fine s scope ws _ (
      if_cases (Fine s scope) (D.windows.alive s w && is_candidate D s w)
        (λ e.
          let q = register_window D.windows s w r in
          let a : D.windows.alive s w ≡ true = ground arith in
          let old =
            All-map (λ ref. offered D s scope r ref ≡ true)
              (λ ref. offered D s scope q.0 ref ≡ true) fallback
              (λ ref. offered-register s scope w r ref u a) h in
          (
            Registry.register_window-IsValid D.windows s w r u,
            if_cases (All (λ ref. offered D s scope q.0 ref ≡ true)) (in_scope D s scope w)
                (λ g.
                  All-append (λ ref. offered D s scope q.0 ref ≡ true) fallback (q.1 ∷ []) old
                    (offered-new s scope w r a (ground arith) g, tt))
                (λ g. old),
          ))
        (λ e. (u, h)))

  scanned-Fine :
      (scope : Scope) (s : D.windows.State) (r : WindowIdentityRegistry D.windows)
      → Registry.IsValid D.windows r
      → Fine s scope (scanned D scope (s, r))
  unfolding scanned
  scanned-Fine scope s r u = elim (Option-cases (D.history s)) [
    | inl e ↦ rw (e, scanned) (u, tt)
    | inr (ws, e) ↦ rw (e, scanned) (scan-Fine s scope (reverse ws) (r, []) (u, tt))
  ]

  offered-valid :
      (s : D.windows.State) (scope : Scope) (r : WindowIdentityRegistry D.windows) (ref : WindowRef)
      → offered D s scope r ref ≡ true
      → is_valid D (s, r) ref ≡ true
  unfolding offered is_valid
  offered-valid s scope r ref h = ground arith

  -- An eligible window that the registry knows after the scan is in the answer.
  candidates_complete :
      (order : List WindowRef) (scope : Scope) (s : D.windows.State)
      (r : WindowIdentityRegistry D.windows)
      → Registry.IsValid D.windows (scanned D scope (s, r)).0
      → (ref : WindowRef) → Eligible D s scope (scanned D scope (s, r)).0 ref
      → contains (candidates D order scope (s, r)).1 ref ≡ true
  unfolding candidates
  candidates_complete order scope s r v ref (w, e, alive, shown) =
      let (r', seen) = scanned D scope (s, r) in
      let p : WindowRef → Bool = offered D s scope r' in
      let live = live_refs_newest_first D.windows r' in
      let q : p ref ≡ true = (offered_iff D s scope r' ref).1 (w, e, alive, shown) in
      let (_, both, _, _) = merge_mru_order_lem (filter p order) (seen ++ filter p live) in
      ground (
        arith,
        both ref,
        contains-append seen (filter p live) ref,
        contains-filter p live ref,
        resolve-live D.windows s w r' ref v e,
      )

  -- With a valid registry, the answer to a session names no window twice. A window is in it exactly
  -- when its identity resolves, in the registry as it is then, to a window that is alive, mapped and not
  -- hidden, on no special workspace that is not in view, and in the scope; each of them is valid. Every
  -- window of the compositor's own history that is so has an identity that is in it. When
  -- the history's order names none twice, the answer starts with the windows of it that are so, in that
  -- order. Asking leaves the compositor as it was.
  pub candidates_lem :
      (order : List WindowRef) (scope : Scope) (s : D.windows.State)
      (r : WindowIdentityRegistry D.windows)
      → Registry.IsValid D.windows r
      → let (w, answer) = candidates D order scope (s, r) in
        Distinct answer
        × All (Eligible D s scope w.1) answer
        × ((ref : WindowRef) → Eligible D s scope w.1 ref → contains answer ref ≡ true)
        × ((entries : List D.windows.Window)
            → D.history s ≡ some entries
            → All
                (λ v.
                  D.windows.alive s v ≡ true
                  → MayShow D s scope v
                  → (ref : WindowRef) × (resolve D.windows s ref w.1 ≡ some v)
                    × (contains answer ref ≡ true))
                entries)
        × All (λ ref. is_valid D w ref ≡ true) answer
        × (Distinct order
            → (first : List WindowRef) × (rest : List WindowRef) × (answer ≡ first ++ rest)
              × Picked (Eligible D s scope w.1) order first)
        × (w.0 ≡ s)
  unfolding candidates is_candidate
  candidates_lem order scope s r u =
      let (v, seen) = scanned-Fine scope s r u in
      let r' = (scanned D scope (s, r)).0 in
      let p : WindowRef → Bool = offered D s scope r' in
      let P : WindowRef → Type 0 = λ ref. p ref ≡ true in
      let live = live_refs_newest_first D.windows r' in
      let fallback = (scanned D scope (s, r)).1 ++ filter p live in
      let primary = filter p order in
      let (d, both, front, _) = merge_mru_order_lem primary fallback in
      let all =
        All-merge P primary fallback (All-filter p order)
          (All-append P (scanned D scope (s, r)).1 (filter p live) seen (All-filter p live)) in
      let complete = candidates_complete order scope s r v in
      (
        d,
        All-map P (Eligible D s scope r') (merge_mru_order primary fallback)
            (λ ref. (offered_iff D s scope r' ref).0) all,
        complete,
        λ entries e.
            All-map (IsCovered D s scope r')
              (λ v.
                D.windows.alive s v ≡ true
                → MayShow D s scope v
                → (ref : WindowRef) × (resolve D.windows s ref r' ≡ some v)
                  × (contains (merge_mru_order primary fallback) ref ≡ true))
              entries
              (λ v c a m. let (ref, k) = c (ground arith) in (ref, k, complete ref (v, k, a, m)))
              (scanned-covers D s scope r entries u e),
        All-map P (λ ref. is_valid D (s, r') ref ≡ true) (merge_mru_order primary fallback)
            (λ ref. offered-valid s scope r' ref) all,
        λ o.
            let (rest, e) = front (Distinct-filter p order o) in
            (
              primary,
              rest,
              e,
              filter-Picked (Eligible D s scope r') p order (offered_iff D s scope r'),
            ),
        refl,
      )
