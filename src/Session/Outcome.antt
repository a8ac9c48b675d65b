-- ===== src/Session/Outcome.antt =====
-- What an apply comes to.
use mru_switcher.Prelude.{
  ◌<◌, ◌≡◌, refl, ap, ◌∙◌, true, List, [], ◌∷◌, ◌++◌, Option, none, some, arith, inl, inr, ◌>>=◌,
}
use mru_switcher.Window.{WindowRef}
use mru_switcher.Snapshot.{Snapshot, at}
use mru_switcher.Scheduler.{SchedulerPort}
use mru_switcher.Ports.{Ports, FocusResult}
use mru_switcher.Session.Defs.{
  SessionController, SessionEndReason, CommandResult, Effect, focus_call, end_session, clamp_index,
  prune_active,
}
use mru_switcher.Session.Apply.{resolve_and_focus, finish_first, finish_second, apply}
use mru_switcher.Session.Invariant.{IsValid, capacity, Selected-live}
use mru_switcher.Session.Pruning.{resolve_lem, remaining, focused_on, prune_active-eq}
use mru_switcher.Session.Attempts.{
  dead, nothing, focused, refused, Attempts, once, again, died_twice, Ended, IsOpen, fail-Ended,
  complete-Ended, rebase, Retried, second_result,
}

module _ {S : SchedulerPort} {P : Ports} where
  -- No window was left: the session ends with the pruned snapshot.
  nothing_left :
      (c : SessionController S P) (s : Snapshot)
      → IsOpen c s
      → let d = prune_active c in
        Ended c [] none
          (end_session SessionEndReason.no_windows "no windows" d).0
          (end_session SessionEndReason.no_windows "no windows" d).1
  nothing_left c s v = rw (prune_active-eq c s v.frozen) (
      let u =
        fail-Ended SessionEndReason.no_windows "no windows"
          (record c {
            snapshot = some (remaining c s);
            index = clamp_index (remaining c s) c.index;
          })
          refl refl v.tracker_valid v.locked in
      record {
        valid = u.valid;
        idle = u.idle;
        told = u.told;
        ok = u.ok;
        waits = u.waits;
        same_order = u.same_order;
        room = u.room;
      })

  second_attempt :
      (c : SessionController S P) (s : Snapshot)
      → IsOpen c s
      → Retried c (resolve_and_focus c >>= finish_second)
  unfolding finish_second
  second_attempt c s v = elim (resolve_lem c s v.active v.frozen) [
    | inl (_, e) ↦ rw e (_, _, [], none, refl, inl nothing, nothing_left c s v)
    | inr (r, f, _, e) ↦ rw e (second_result c s r (P.focus r c.world).result v f refl)
  ]

  abbrev Whole : SessionController S P → Option (SessionController S P × CommandResult) → Type 0
  Whole c o =
      (c' : SessionController S P) × (q : CommandResult) × (fs : List Effect) × (w : Option
        WindowRef)
      × (o ≡ some (c', q))
      × Attempts fs w
      × Ended c fs w c' q

  IsOpen-again :
      (c : SessionController S P) (s : Snapshot) (r : WindowRef)
      → IsOpen c s
      → IsOpen (focused_on c s r) (remaining c s)
  IsOpen-again c s r v = record {
    active = v.active;
    frozen = refl;
    tracker_valid = v.tracker_valid;
    locked = v.locked;
    room = v.room;
  }

  first_result :
      (c : SessionController S P) (s : Snapshot) (r : WindowRef) (result : FocusResult)
      → IsOpen c s
      → at (remaining c s) (clamp_index (remaining c s) c.index) ≡ some r
      → (P.focus r c.world).result ≡ result
      → Whole c (finish_first (focused_on c s r, some result))
  unfolding finish_first
  first_result c s r FocusResult.applied v f e =
      let (c', q, eq, u) =
        complete-Ended (focused_on c s r) (remaining c s) r refl f v.tracker_valid v.room in
      (
        c',
        q,
        focus_call r FocusResult.applied ∷ [],
        some r,
        eq,
        once (focused r),
        rebase c s r [] (some r) c' q FocusResult.applied e u,
      )
  first_result c s r FocusResult.failed v f e =
      let u =
        fail-Ended SessionEndReason.focus_failed "focus failed" (focused_on c s r) refl refl
          v.tracker_valid v.locked in
      (
        _,
        _,
        focus_call r FocusResult.failed ∷ [],
        none,
        refl,
        once (refused r),
        rebase c s r [] none _ _ FocusResult.failed e u,
      )
  first_result c s r FocusResult.invalid_target v f e =
      let (c', q, fs, w, eq, a, u) =
        second_attempt (focused_on c s r) (remaining c s) (IsOpen-again c s r v) in
      (
        c',
        q,
        fs ++ dead r ∷ [],
        w,
        eq,
        elim a [
          | inl one ↦ again r fs one refl
          | inr (p, g, h) ↦ died_twice r p (ap (λ (xs : List Effect). xs ++ dead r ∷ []) g) h
        ],
        rebase c s r fs w c' q FocusResult.invalid_target e u,
      )

  pub IsValid-IsOpen :
      (c : SessionController S P)
      → IsValid c
      → c.active ≡ true
      → 0 < capacity c
      → (s : Snapshot) × IsOpen c s
  IsValid-IsOpen c v e room =
      let (s, f, _) = Selected-live c.active c.snapshot c.index c.session_origin v.selected e in
      (
        s,
        record {
          active = e;
          frozen = f;
          tracker_valid = v.tracker_valid;
          locked = v.locked ∙ e;
          room = room;
        },
      )

  -- From a valid state with an active session and a job id left, `apply` reads nothing out of bounds and returns; it
  -- makes at most two focus calls, the second only after the window of the first had died, and at
  -- most the last one succeeds; then the session is over, the user interface has been told once and
  -- with the right reason, the result is `ok` exactly if a window got the focus, that window and no
  -- other waits for its promotion, and the order is as it was.
  pub apply_outcome :
      (c : SessionController S P)
      → IsValid c
      → c.active ≡ true
      → 0 < capacity c
      → (c' : SessionController S P) × (q : CommandResult) × (fs : List Effect) × (w : Option
          WindowRef)
        × (apply c ≡ some (c', q))
        × Attempts fs w
        × Ended c fs w c' q
  unfolding apply finish_first
  apply_outcome c v e room =
      let (s, o) = IsValid-IsOpen c v e room in
      elim (resolve_lem c s e o.frozen) [
        | inl (_, eq) ↦ (
          (end_session SessionEndReason.no_windows "no windows" (prune_active c)).0,
          (end_session SessionEndReason.no_windows "no windows" (prune_active c)).1,
          [],
          none,
          ground (arith, e, eq),
          once nothing,
          nothing_left c s o,
        )
        | inr (r, f, _, eq) ↦
            let (c', q, fs, w, h, a, u) = first_result c s r (P.focus r c.world).result o f refl in
            (c', q, fs, w, ground (arith, e, eq, h), a, u)
      ]
