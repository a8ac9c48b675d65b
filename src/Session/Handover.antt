-- ===== src/Session/Handover.antt =====
-- From one session to the next: what an apply, a cancel and the start of a session do to the order
-- of the history and to the focus.
use mru_switcher.Prelude.{
  ◌<◌, ◌≡◌, refl, ◌∙◌, Bool, true, false, not, ◌&&◌, List, [], ◌∷◌, ◌++◌, Option, none, some, arith,
  if◌then◌else◌, is_empty, filter, remove, ap,
}
use mru_switcher.Window.{WindowRef, ref_eq, window_eq, Scope}
use mru_switcher.Scheduler.{SchedulerPort}
use mru_switcher.History
use mru_switcher.History.{promote}
use mru_switcher.History.Lock
use mru_switcher.History.Promotion
use mru_switcher.Ports.{Ports, UiEndReason}
use mru_switcher.Session.Defs.{
  SessionController, CommandResult, SessionEndReason, Effect, focus_call, session_end,
  begin_session, end_session, focus_window, deliver, on_focus,
}
use mru_switcher.Session.Apply.{apply, cancel, restore_focus}
use mru_switcher.Session.Invariant.{IsValid, capacity}
use mru_switcher.Session.Outcome.{apply_outcome}

remove-filter :
    (r : WindowRef) (xs : List WindowRef) → remove r xs ≡ filter (λ x. not (ref_eq x r)) xs
remove-filter r [] = refl
remove-filter r (x ∷ xs) = ground (arith, remove-filter r xs)

promote-filter :
    (r : WindowRef) (xs : List WindowRef) → promote r xs ≡ r ∷ filter (λ x. not (ref_eq x r)) xs
unfolding promote
promote-filter r xs = ap (λ l. r ∷ l) (remove-filter r xs)

module _ {S : SchedulerPort} {P : Ports} where
  -- The order that a new session is built from.
  abbrev pub flushed_order : SessionController S P → List WindowRef
  flushed_order c = Promotion.committed S (P.is_valid c.world) c.tracker.pending_ref c.tracker.order

  -- From a valid state, a session starts from the order in which a promotion that waits has been committed: the window
  -- source is asked with that order, the list is what it answers, and the history keeps it.
  pub begin_session-order :
      (scope : Scope) (c : SessionController S P)
      → IsValid c
      → let answer = P.candidates (flushed_order c) scope c.world in
        let r = begin_session scope c in
        (r.0.tracker.order ≡ flushed_order c)
        × (r.1.ok ≡ not (is_empty answer.1))
        × (r.1.ok ≡ true → r.0.snapshot ≡ some (record { windows = answer.1; scope = scope }))
        × (r.1.ok ≡ true → r.0.active ≡ true)
  unfolding begin_session
  begin_session-order scope c v =
      let t = History.flush_pending S (P.is_valid c.world) c.tracker in
      let o = Promotion.order-flush S (P.is_valid c.world) c.tracker v.tracker_valid in
      ground (arith, o, Lock.order-set S true t)

  -- Two switches in a row: when an apply, from a valid state with an active session and a job id left,
  -- has left a window to be promoted that is still valid, the next session starts from the order with
  -- that window in front, followed by all the others as they stood, however short the time between
  -- them.
  pub apply-begin_session :
      (scope : Scope) (c : SessionController S P) (d : SessionController S P) (q : CommandResult)
      (r : WindowRef)
      → IsValid c
      → c.active ≡ true
      → 0 < capacity c
      → apply c ≡ some (d, q)
      → d.tracker.pending_ref ≡ some r
      → P.is_valid d.world r ≡ true
      → (begin_session scope d).0.tracker.order ≡ r ∷ filter (λ x. not (ref_eq x r)) c.tracker.order
  apply-begin_session scope c d q r v a room e w ok_ =
      let (d', q', fs, w', eq, _, u) = apply_outcome c v a room in
      let same : d' ≡ d = cc in
      let valid : IsValid d = rw (← same) u.valid in
      let kept : d.tracker.order ≡ c.tracker.order = rw (← same) u.same_order in
      let (o, _, _, _) = begin_session-order scope d valid in
      let promoted : flushed_order d ≡ promote r c.tracker.order = ground arith in
      o ∙ promoted ∙ promote-filter r c.tracker.order

  deliver-keeps :
      (rs : List WindowRef) (c : SessionController S P)
      → ((deliver rs c).effects ≡ c.effects)
        × ((deliver rs c).active ≡ c.active)
        × ((deliver rs c).tracker.order ≡ c.tracker.order)
  unfolding deliver on_focus
  deliver-keeps [] c = (refl, refl, refl)
  deliver-keeps (r ∷ rs) c =
      ground (arith, deliver-keeps rs (on_focus r c), Lock.order-on_focus S r c.tracker)

  -- The call that `restore_focus` makes.
  abbrev pub restoring : Bool → Option WindowRef → SessionController S P → List Effect
  restoring b none c = []
  restoring b (some origin) c =
      if b && P.is_valid c.world origin
      then focus_call origin (P.focus origin c.world).result ∷ []
      else []

  -- The focus call of a cancel: the origin, if there is one, it is still valid and the policy of the
  -- session says so.
  abbrev pub restored : SessionController S P → List Effect
  restored c = restoring c.snapshot_policy.restore_focus_on_cancel c.session_origin c

  ended : SessionController S P → SessionController S P
  ended c = (end_session SessionEndReason.user_cancel "" c).0

  restore-outcome :
      (b : Bool) (origin : Option WindowRef) (c : SessionController S P)
      → let r = restore_focus b origin c in
        (r.active ≡ c.active)
        × (r.tracker.order ≡ c.tracker.order)
        × (r.effects ≡ restoring b origin c ++ c.effects)
  unfolding restore_focus focus_window
  restore-outcome b none c = (refl, refl, refl)
  restore-outcome b (some origin) c =
      let o = P.focus origin c.world in
      let e : SessionController S P = record c {
        world = o.world;
        effects = focus_call origin o.result ∷ c.effects;
      } in
      ground (arith, deliver-keeps o.activated e)

  -- A cancel ends an active session with one call that says `cancelled`, then focuses the origin
  -- exactly when the policy frozen with the session asks for it and the origin is still valid, and
  -- no other window; the order is as it was and the result is `ok`. When idle it does nothing.
  pub cancel_outcome :
      (c : SessionController S P)
      → ((cancel c).1.ok ≡ true)
        × ((cancel c).0.active ≡ false)
        × ((cancel c).0.tracker.order ≡ c.tracker.order)
        × ((cancel c).0.effects ≡ (
            if c.active
            then restored c ++ session_end UiEndReason.cancelled ∷ c.effects
            else c.effects))
        × (c.active ≡ false → (cancel c).0 ≡ c)
  unfolding cancel end_session ended
  cancel_outcome c =
      let h =
        restore-outcome c.snapshot_policy.restore_focus_on_cancel c.session_origin (ended c) in
      ground (arith, h, Lock.order-set S false c.tracker)
