-- ===== src/Session/Apply.antt =====
-- How a session ends: apply, cancel, a window that closes, and the unloading of the plugin.
use mru_switcher.Prelude.{
  ◌-◌, Bool, not, ◌&&◌, Option, none, some, if◌then◌else◌, contains, min, ◌>>=◌,
}
use mru_switcher.Window.{WindowRef, window_eq, SessionPolicy}
use mru_switcher.Snapshot.{Snapshot, size, empty, at}
use mru_switcher.Scheduler.{SchedulerPort}
use mru_switcher.History
use mru_switcher.Ports.{Ports, FocusResult}
use mru_switcher.Session.Defs.{
  SessionController, SessionEndReason, CommandResult, done, focus_window, prune_active, end_session,
}

module _ {S : SchedulerPort} {P : Ports} where
  -- `!snapshot_ || snapshot_->empty()`, as the snapshot that is neither.
  unfoldable pub live_snapshot : SessionController S P → Option Snapshot
  live_snapshot c = c.snapshot >>= λ s. if empty s then none else some s

  -- The end of `resolve_and_focus`: clamp, then one focus attempt.
  unfoldable pub clamp_and_focus :
      Snapshot → SessionController S P → Option (SessionController S P × Option FocusResult)
  clamp_and_focus s c =
      let i = min c.index (size s - 1) in
      at s i >>= λ r.
      let (c', result) = focus_window r (record c { index = i }) in some (c', some result)

  -- After the second pruning.
  unfoldable pub focus_again :
      SessionController S P → Option (SessionController S P × Option FocusResult)
  unfolding live_snapshot
  focus_again c = elim (live_snapshot c) [ none ↦ some (c, none) | some s ↦ clamp_and_focus s c ]

  unfoldable pub resolve_pruned :
      SessionController S P → Option (SessionController S P × Option FocusResult)
  unfolding live_snapshot
  resolve_pruned c = elim (live_snapshot c) [
    | none ↦ some (c, none)
    | some s ↦ at s c.index >>= λ r.
        if P.is_valid c.world r then clamp_and_focus s c else focus_again (prune_active c)
  ]

  unfoldable pub resolve_and_focus :
      SessionController S P → Option (SessionController S P × Option FocusResult)
  resolve_and_focus c = resolve_pruned (prune_active c)

  unfoldable pub complete_apply :
      SessionController S P → Option (SessionController S P × CommandResult)
  complete_apply c = c.snapshot >>= λ s. at s c.index >>= λ ref.
      let (c', result) = end_session SessionEndReason.applied "" c in
      some (record c' { tracker = History.on_focus S ref c'.tracker }, result)

  -- The second attempt, after `InvalidTarget`.
  unfoldable pub finish_second :
      SessionController S P × Option FocusResult → Option (SessionController S P × CommandResult)
  finish_second (c, none) = some (end_session SessionEndReason.no_windows "no windows" c)
  finish_second (c, some FocusResult.applied) = complete_apply c
  finish_second (c, some FocusResult.failed) =
      some (end_session SessionEndReason.focus_failed "focus failed" c)
  finish_second (c, some FocusResult.invalid_target) =
      some (end_session SessionEndReason.invalid_selection "selection invalid" c)

  unfoldable pub finish_first :
      SessionController S P × Option FocusResult → Option (SessionController S P × CommandResult)
  finish_first (c, none) = some (end_session SessionEndReason.no_windows "no windows" c)
  finish_first (c, some FocusResult.applied) = complete_apply c
  finish_first (c, some FocusResult.failed) =
      some (end_session SessionEndReason.focus_failed "focus failed" c)
  finish_first (c, some FocusResult.invalid_target) = resolve_and_focus c >>= finish_second

  unfoldable pub apply : SessionController S P → Option (SessionController S P × CommandResult)
  apply c = if not c.active then some (c, done) else (resolve_and_focus c >>= finish_first)

  -- `restore && origin && source_.is_valid(*origin)`, and the focus call under it.
  unfoldable pub restore_focus :
      Bool → Option WindowRef → SessionController S P → SessionController S P
  restore_focus restore none c = c
  restore_focus restore (some origin) c =
      if restore && P.is_valid c.world origin then (focus_window origin c).0 else c

  unfoldable pub cancel : SessionController S P → SessionController S P × CommandResult
  cancel c = if not c.active then (c, done) else (
    restore_focus c.snapshot_policy.restore_focus_on_cancel c.session_origin
        (end_session SessionEndReason.user_cancel "" c).0,
    done,
  )

  unfoldable pub plugin_shutdown : SessionController S P → SessionController S P
  plugin_shutdown c =
      if not c.active then c else (end_session SessionEndReason.plugin_shutdown "" c).0

  unfoldable pub on_window_invalid : WindowRef → SessionController S P → SessionController S P
  on_window_invalid ref c = elim c.snapshot [
    | none ↦ c
    | some s ↦
        if not c.active
        then c
        else if not (contains s.windows ref)
        then c
        else elim (live_snapshot (prune_active c)) [
          | none ↦ (end_session SessionEndReason.no_windows "no windows" (prune_active c)).0
          | some _ ↦ prune_active c
        ]
  ]

  unfoldable pub set_policy : SessionPolicy → SessionController S P → SessionController S P
  set_policy policy c = record c { policy = policy }
