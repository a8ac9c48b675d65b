-- ===== src/Border/Runs.antt =====
-- Runs of the calls of src/plugin/border_highlight_ui.cpp, and a watched property.
use mru_switcher.Prelude.{
  ℕ, ◌≡◌, refl, sym, ap, ◌∙◌, subst, true, false, List, [], ◌∷◌, if_cases, All, none, some,
}
use mru_switcher.Ports.{UiEndReason}
use mru_switcher.Snapshot.{Snapshot}
use mru_switcher.Border.Capture.{BorderSlot}
use mru_switcher.Border.Defs.{
  BorderPorts, BorderHighlightUi, pulse_tick, restore_all, probe_available, on_session_start,
  on_selection_changed, on_session_end,
}
use mru_switcher.Border.Watched.{Watched}
use mru_switcher.Border.Undo.{warn_once-snapshot}
use mru_switcher.Border.Held.{Holds, pulse_tick-Holds}
use mru_switcher.Border.Draw.{unless_returned-world, unless_returned-captures}
use mru_switcher.Border.Frame.{highlight-Has, pulse_tick-Has, restore_all-Has}
use mru_switcher.Border.Dim.{Apart}
use mru_switcher.Border.Highlight.{
  Separate, Idle, Idle-Holds, warn_once-Holds, highlight-Holds, restore_all-Idle,
}

-- What the session controller and the timer call.
pub data UiCall : Type 0 where
  started : Snapshot → ℕ → UiCall
  changed : ℕ → UiCall
  ticked : UiCall
  ended : UiEndReason → UiCall

-- The windows of a session that starts have different addresses.
abbrev pub Sound : UiCall → Type 0
Sound (UiCall.started s i) = Apart s.windows
Sound (UiCall.changed i) = Unit
Sound UiCall.ticked = Unit
Sound (UiCall.ended reason) = Unit

unfoldable pub call : {B : BorderPorts} → UiCall → BorderHighlightUi B → BorderHighlightUi B
call (UiCall.started s i) u = on_session_start s i u
call (UiCall.changed i) u = on_selection_changed i u
call UiCall.ticked u = pulse_tick u
call (UiCall.ended reason) u = on_session_end reason u

unfoldable pub run : {B : BorderPorts} → List UiCall → BorderHighlightUi B → BorderHighlightUi B
unfolding call
run [] u = u
run (c ∷ cs) u = run cs (call c u)

module _ {B : BorderPorts} {a0 : ℕ} {s0 : BorderSlot} (K : Watched B a0 s0) where
  -- Between the calls.
  Kept : K.Shown → BorderHighlightUi B → Type 0
  Kept x u = Separate u.snapshot × Holds K x u

  on_selection_changed-Kept :
      (i : ℕ) (x : K.Shown) (u : BorderHighlightUi B) → Kept x u → Kept x (on_selection_changed i u)
  unfolding Kept on_selection_changed
  on_selection_changed-Kept i x u (apart, h) =
      let separate = subst Separate (sym (restore_all-Has u refl)) apart in
      (
        subst Separate (sym (highlight-Has i (restore_all u) refl)) separate,
        highlight-Holds K i x (restore_all u) separate (restore_all-Idle K x u h),
      )

  on_session_start-Kept :
      (s : Snapshot) (i : ℕ) (x : K.Shown) (u : BorderHighlightUi B)
      → Apart s.windows
      → Kept x u
      → Kept x (on_session_start s i u)
  unfolding Kept on_session_start Idle
  on_session_start-Kept s i x u apart (_, h) =
      let v = restore_all u in
      let w : BorderHighlightUi B = record v {
        snapshot = some s;
        degraded = false;
        world = B.begin v.world;
      } in
      let (c, e) = restore_all-Idle K x u h in
      let idle : Idle K x w = (c, K.shown-begin v.world ∙ e) in
      if_cases (Kept x) (probe_available s.windows w)
        (λ _.
          (subst Separate (sym (highlight-Has i w refl)) apart, highlight-Holds K i x w apart idle))
        (λ _. (
          subst Separate (sym (warn_once-snapshot _ _)) apart,
          warn_once-Holds K _ x _ (Idle-Holds K x (record w { degraded = true }) idle),
        ))

  on_session_end-Idle :
      (reason : UiEndReason) (x : K.Shown) (u : BorderHighlightUi B)
      → Holds K x u
      → Idle K x (on_session_end reason u)
  unfolding Idle on_session_end
  on_session_end-Idle reason x u h =
      let (c, e) = restore_all-Idle K x u h in
      (
        unless_returned-captures K _ _ _ ∙ c,
        ap K.shown (unless_returned-world K _ _ _) ∙ K.shown-finish _ reason ∙ e,
      )

  call-Kept :
      (c : UiCall) (x : K.Shown) (u : BorderHighlightUi B) → Sound c → Kept x u → Kept x (call c u)
  unfolding Kept call on_session_end
  call-Kept (UiCall.started s i) x u apart h = on_session_start-Kept s i x u apart h
  call-Kept (UiCall.changed i) x u _ h = on_selection_changed-Kept i x u h
  call-Kept UiCall.ticked x u _ (apart, h) =
      (subst Separate (sym (pulse_tick-Has u refl)) apart, pulse_tick-Holds K x u h)
  call-Kept (UiCall.ended reason) x u _ (_, h) =
      (tt, Idle-Holds K x (on_session_end reason u) (on_session_end-Idle reason x u h))

  run-Kept :
      (cs : List UiCall) (x : K.Shown) (u : BorderHighlightUi B)
      → All Sound cs
      → Kept x u
      → Kept x (run cs u)
  unfolding run
  run-Kept [] x u sound h = h
  run-Kept (c ∷ cs) x u (first, rest) h = run-Kept cs x (call c u) rest (call-Kept c x u first h)

  -- A highlight that starts with nothing captured, and then sees any calls: starts of sessions whose
  -- windows have different addresses, changes of the selection, ticks of the pulse and ends. Once a
  -- session ends, nothing is captured, and a property of a window looks as it did at first, whatever
  -- its slot, provided that writes of it are always done or never, that what is read of it and can be
  -- written means what is shown, that a size that cannot be read is an unset one, and that only its
  -- own writes change it.
  pub on_session_end-run :
      (cs : List UiCall) (reason : UiEndReason) (u : BorderHighlightUi B)
      → u.captures ≡ []
      → u.snapshot ≡ none
      → All Sound cs
      → let v = on_session_end reason (run cs u) in
        (v.captures ≡ []) × (K.shown v.world ≡ K.shown u.world)
  unfolding Kept Idle
  on_session_end-run cs reason u c n sound =
      let x = K.shown u.world in
      on_session_end-Idle reason x (run cs u)
        (run-Kept cs x u sound (subst Separate (sym n) tt, Idle-Holds K x u (c, refl))).1
