-- ===== src/Session/Trace/Life.antt =====
-- Every event keeps the calls of the user interface in turn.
use mathlib.Core.Option.{some-injective}
use mru_switcher.Prelude.{
  ℕ, ◌≤◌, ◌<◌, lt→ltb, ◌≡◌, refl, Bool, true, not, ◌&&◌, ◌||◌, List, [], ◌∷◌, Option, none, some,
  arith, if_cases, Bool-cases, Option-cases, inl, inr, contains, first_of_pair, length-filter-le,
  leb,
}
use mru_switcher.Window.{WindowRef, window_eq}
use mru_switcher.Snapshot.{Snapshot, size, empty}
use mru_switcher.Scheduler.{SchedulerPort}
use mru_switcher.Ports.{Ports}
use mru_switcher.Session.Defs.{
  SessionController, SessionEndReason, CommandResult, end_session, prune_active, on_focus, cycle,
  select_index,
}
use mru_switcher.Session.Apply.{
  apply, cancel, restore_focus, plugin_shutdown, on_window_invalid, live_snapshot, set_policy,
}
use mru_switcher.Session.Step.{
  Event, cycles, selects, applies, cancels, shuts_down, focuses, closes, reloads, fires, changes,
  step, run,
}
use mru_switcher.Session.Invariant.{IsValid, capacity}
use mru_switcher.Session.Pruning.{remaining, prune_active-eq}
use mru_switcher.Session.Outcome.{apply_outcome}
use mru_switcher.Session.Safety.{cost, costs, step_safe}
use mru_switcher.Session.Trace.{
  replay-Attempts, InTurn, shown_while, shows, focus_window-InTurn, end_session-InTurn,
  cycle-InTurn,
}

module _ {S : SchedulerPort} {P : Ports} where
  select_index-InTurn : (i : ℕ) (c : SessionController S P) → InTurn c → InTurn (select_index i c).0
  unfolding select_index
  select_index-InTurn i c (shown, t, h) = elim (Option-cases c.snapshot) [
    | inl f ↦ rw (f, select_index) (shown, t, h)
    | inr (s, f) ↦
        rw (f, select_index)
          (if_cases (λ (r : SessionController S P × CommandResult). InTurn r.0)
            (not c.active || empty s || leb (size s) i) (λ _. (shown, t, h))
            (λ g.
              let a : c.active ≡ true = ground arith in
              let (s', n, f', e, le) = shown_while c.active c.snapshot shown h a in
              let lt : i < size s = ground arith in
              let same : s' ≡ s = cc in
              let le' : size s ≤ n = rw same at le in
              (some n, rw (t, e, lt→ltb i n (omega arith)), shows c.active c.snapshot s n a f le')))
  ]

  restore_focus-InTurn :
      (b : Bool) (o : Option WindowRef) (c : SessionController S P)
      → InTurn c
      → InTurn (restore_focus b o c)
  unfolding restore_focus
  restore_focus-InTurn b none c t = t
  restore_focus-InTurn b (some r) c t =
      if_cases InTurn (b && P.is_valid c.world r) (λ _. focus_window-InTurn r c t) (λ _. t)

  cancel-InTurn : (c : SessionController S P) → InTurn c → InTurn (cancel c).0
  unfolding cancel
  cancel-InTurn c t =
      if_cases (λ (r : SessionController S P × CommandResult). InTurn r.0) (not c.active) (λ _. t)
        λ a.
          restore_focus-InTurn c.snapshot_policy.restore_focus_on_cancel c.session_origin
            (end_session SessionEndReason.user_cancel "" c).0
            (end_session-InTurn SessionEndReason.user_cancel "" c t (ground arith))

  shutdown-InTurn : (c : SessionController S P) → InTurn c → InTurn (plugin_shutdown c)
  unfolding plugin_shutdown
  shutdown-InTurn c t =
      if_cases InTurn (not c.active) (λ _. t)
        λ a. end_session-InTurn SessionEndReason.plugin_shutdown "" c t (ground arith)

  prune-InTurn :
      (c : SessionController S P) (s : Snapshot)
      → InTurn c
      → c.active ≡ true
      → c.snapshot ≡ some s
      → InTurn (prune_active c) × ((prune_active c).active ≡ true)
  prune-InTurn c s (shown, t, h) a f =
      let (s', n, f', e, le) = shown_while c.active c.snapshot shown h a in
      let same : s' ≡ s = cc in
      let le' : size s ≤ n = rw same at le in
      rw (prune_active-eq c s f) (
        (
          some n,
          rw (← e) t,
          shows c.active (some (remaining c s)) (remaining c s) n a refl
              (omega (arith, length-filter-le (P.is_valid c.world) s.windows)),
        ),
        a,
      )

  closed-InTurn :
      (r : WindowRef) (c : SessionController S P) → InTurn c → InTurn (on_window_invalid r c)
  unfolding on_window_invalid
  closed-InTurn r c t = elim (Option-cases c.snapshot) [
    | inl f ↦ rw (f, on_window_invalid) t
    | inr (s, f) ↦
        rw (f, on_window_invalid)
          (if_cases InTurn (not c.active) (λ _. t)
            λ g.
              if_cases InTurn (not (contains s.windows r)) (λ _. t)
                λ _.
                  let (u, a) = prune-InTurn c s t (ground arith) f in
                  elim (Option-cases (live_snapshot (prune_active c))) [
                    | inl e ↦ rw e (
                        end_session-InTurn SessionEndReason.no_windows "no windows" (prune_active c)
                          u a)
                    | inr (s', e) ↦ rw e u
                  ])
  ]

  apply-InTurn :
      (c : SessionController S P) (d : SessionController S P) (q : CommandResult)
      → IsValid c
      → 0 < capacity c
      → InTurn c
      → apply c ≡ some (d, q)
      → InTurn d
  unfolding apply
  apply-InTurn c d q v room (shown, t, h) e = elim (Bool-cases c.active) [
    | inl a ↦
        let (d', q', fs, w, eq, at_, u) = apply_outcome c v a room in
        let (s, n, _, g, _) = shown_while c.active c.snapshot shown h a in
        let same : d ≡ d' = cc in
        rw same (none, rw (u.told, replay-Attempts fs w c.effects at_, t, g), rw u.idle tt)
    | inr a ↦ let same : d ≡ c = ground arith in rw same (shown, t, h)
  ]

  on_focus-InTurn : (r : WindowRef) (c : SessionController S P) → InTurn c → InTurn (on_focus r c)
  unfolding on_focus
  on_focus-InTurn r c t = if_cases InTurn c.active (λ _. t) (λ _. t)

  step-InTurn :
      (e : Event P.World) (c : SessionController S P) (d : SessionController S P)
      → IsValid c
      → cost P.burst e ≤ capacity c
      → InTurn c
      → step e c ≡ some d
      → InTurn d
  unfolding step set_policy
  step-InTurn (cycles dir o) c d v room t e =
      let (r, eq) = first_of_pair (cycle dir o c) e in cycle-InTurn dir o c d r v t eq
  step-InTurn (selects i) c d v room t e = rw (← some-injective _ _ e) (select_index-InTurn i c t)
  step-InTurn applies c d v room t e =
      let (r, eq) = first_of_pair (apply c) e in apply-InTurn c d r v room t eq
  step-InTurn cancels c d v room t e = rw (← some-injective _ _ e) (cancel-InTurn c t)
  step-InTurn shuts_down c d v room t e = rw (← some-injective _ _ e) (shutdown-InTurn c t)
  step-InTurn (focuses r) c d v room t e = rw (← some-injective _ _ e) (on_focus-InTurn r c t)
  step-InTurn (closes r) c d v room t e = rw (← some-injective _ _ e) (closed-InTurn r c t)
  step-InTurn (reloads policy ms) c d v room t e = rw (← some-injective _ _ e) t
  step-InTurn (fires id) c d v room t e = rw (← some-injective _ _ e) t
  step-InTurn (changes w) c d v room t e = rw (← some-injective _ _ e) t

  -- From a valid state in which it was, with job ids enough left, every sequence of events returns a
  -- valid state, and the user interface is called in turn: a session that is shown is started once
  -- and ended once, no selection is announced outside it, and every index that it is given is below
  -- the number of windows that it was started with. A session is shown exactly when one is active.
  pub run-InTurn :
      (es : List (Event P.World)) (c : SessionController S P)
      → IsValid c
      → costs P.burst es ≤ capacity c
      → InTurn c
      → (d : SessionController S P) × (run es c ≡ some d) × IsValid d × InTurn d
  unfolding run
  run-InTurn [] c v room t = (c, refl, v, t)
  run-InTurn (e ∷ es) c v room t =
      let (d, eq, u, k) = step_safe e c v (omega arith) in
      let (f, eq', w, t') =
        run-InTurn es d u (omega arith) (step-InTurn e c d v (omega arith) t eq) in
      (f, rw eq eq', w, t')
