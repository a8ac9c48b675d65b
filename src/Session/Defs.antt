-- ===== src/Session/Defs.antt =====
-- The state of the session controller and its operations.
use Prim.Native.String.{String}
use mru_switcher.Prelude.{
  ℕ, ◌+◌, ◌-◌, ◌%◌, ◌^◌, Bool, true, false, not, ◌||◌, List, [], ◌∷◌, Option, none, some, leb,
  if◌then◌else◌, is_empty, value_or, ◌>>=◌,
}
use mru_switcher.Window.{WindowRef, window_eq, Scope, Direction, SessionPolicy}
use mru_switcher.Selection.{initial_index, advance_index}
use mru_switcher.Snapshot.{Snapshot, size, empty, pruned}
use mru_switcher.Scheduler.{SchedulerPort}
use mru_switcher.History
use mru_switcher.History.{HistoryTracker}
use mru_switcher.Ports.{Ports, FocusResult, UiEndReason}

pub data SessionEndReason : Type 0 where
  applied user_cancel no_windows invalid_selection focus_failed plugin_shutdown : SessionEndReason

pub record CommandResult : Type 0 where
  pub ok : Bool
  pub error : String

abbrev pub done : CommandResult
done = record { ok = true; error = "" }

abbrev pub fail : String → CommandResult
fail error = record { ok = false; error = error }

-- The calls that the controller makes of the user interface and of the focus gateway.
pub data Effect : Type 0 where
  session_start : Snapshot → ℕ → Effect
  selection_changed : ℕ → Effect
  session_end : UiEndReason → Effect
  focus_call : WindowRef → FocusResult → Effect

-- The controller with what it refers to: the history, the world behind its ports, and the calls
-- made so far, newest first.
pub record SessionController (S : SchedulerPort) (P : Ports) : Type 0 where
  pub tracker : HistoryTracker S
  pub world : P.World
  pub effects : List Effect
  pub policy : SessionPolicy
  pub snapshot_policy : SessionPolicy
  pub active : Bool
  pub snapshot : Option Snapshot
  pub index : ℕ
  pub session_origin : Option WindowRef
  pub session_id : ℕ
  pub last_end_reason : Option SessionEndReason

-- `REQ-SNAP-004`: the index is kept within the windows that are left.
abbrev pub clamp_index : Snapshot → ℕ → ℕ
clamp_index s i = if empty s then 0 else if leb (size s) i then size s - 1 else i

abbrev pub coarse : SessionEndReason → UiEndReason
coarse applied = UiEndReason.applied
coarse _ = UiEndReason.cancelled

abbrev pub is_applied : SessionEndReason → Bool
is_applied applied = true
is_applied _ = false

module _ {S : SchedulerPort} {P : Ports} where
  abbrev pub emit : Effect → SessionController S P → SessionController S P
  emit e c = record c { effects = e ∷ c.effects }

  -- The constructor.
  unfoldable pub init : P.World → HistoryTracker S → SessionPolicy → SessionController S P
  init world tracker policy = record {
    tracker = tracker;
    world = world;
    effects = [];
    policy = policy;
    snapshot_policy = policy;
    active = false;
    snapshot = none;
    index = 0;
    session_origin = none;
    session_id = 0;
    last_end_reason = none;
  }

  unfoldable pub on_focus : WindowRef → SessionController S P → SessionController S P
  on_focus ref c = if c.active then c else record c { tracker = History.on_focus S ref c.tracker }

  -- The listener's calls for the windows that were announced during a focus call.
  unfoldable pub deliver : List WindowRef → SessionController S P → SessionController S P
  deliver [] c = c
  deliver (r ∷ rs) c = deliver rs (on_focus r c)

  unfoldable pub focus_window :
      WindowRef → SessionController S P → SessionController S P × FocusResult
  focus_window ref c =
      let o = P.focus ref c.world in
      (
        deliver o.activated (emit (focus_call ref o.result) (record c { world = o.world })),
        o.result,
      )

  unfoldable pub prune_active : SessionController S P → SessionController S P
  prune_active c = elim c.snapshot [
    | none ↦ c
    | some s ↦
        let next =
          value_or (pruned (P.is_valid c.world) s) (record { windows = []; scope = s.scope }) in
        record c { snapshot = some next; index = clamp_index next c.index }
  ]

  unfoldable pub begin_session :
      Scope → SessionController S P → SessionController S P × CommandResult
  begin_session scope c =
      let t = History.flush_pending S (P.is_valid c.world) c.tracker in
      let (w, windows) = P.candidates t.order scope c.world in
      let s : Snapshot = record { windows = windows; scope = scope } in
      let i = initial_index c.policy.start_offset (size s) in
      if is_empty windows then (record c { tracker = t; world = w }, fail "no windows") else (
        emit (session_start s i) (record c {
          tracker = History.set_session_locked S true t;
          world = w;
          snapshot = some s;
          index = i;
          session_origin = P.focused w;
          session_id = (c.session_id + 1) % 2 ^ 64;
          snapshot_policy = c.policy;
          active = true;
        }),
        done,
      )

  unfoldable pub cycle :
      Direction
      → Option Scope
      → SessionController S P
      → Option (SessionController S P × CommandResult)
  cycle dir scope_override c =
      if not c.active
      then some (begin_session (value_or scope_override c.policy.default_scope) c)
      else (c.snapshot >>= λ s.
          let i = advance_index c.index dir c.snapshot_policy.wrap (size s) in
          some (emit (selection_changed i) (record c { index = i }), done))

  unfoldable pub select_index : ℕ → SessionController S P → SessionController S P × CommandResult
  select_index i c = elim c.snapshot [
    | none ↦ (c, done)
    | some s ↦
        if not c.active || empty s || leb (size s) i
        then (c, done)
        else (emit (selection_changed i) (record c { index = i }), done)
  ]

  unfoldable pub end_session :
      SessionEndReason → String → SessionController S P → SessionController S P × CommandResult
  end_session reason error c = (
    emit (session_end (coarse reason)) (record c {
      active = false;
      snapshot = none;
      index = 0;
      session_origin = none;
      last_end_reason = some reason;
      tracker = History.set_session_locked S false c.tracker;
    }),
    record { ok = is_applied reason; error = error },
  )
