-- ===== src/Border/Frame.antt =====
-- The snapshot that the highlight of src/plugin/border_highlight_ui.cpp holds, through its steps.
use mru_switcher.Prelude.{
  ℕ, ◌+◌, ◌≡◌, ◌∙◌, Bool, true, false, not, ◌||◌, List, [], ◌∷◌, ◌==◌, if_cases, is_empty, Bytes,
  Option, none, some, ◌>>=◌, ℤ, pos, negsuc,
}
use mru_switcher.Window.{WindowRef}
use mru_switcher.Snapshot.{Snapshot, at}
use mru_switcher.Border.Capture.{BorderSlot, active_color, inactive_color, alpha, alpha_inactive}
use mru_switcher.Border.Defs.{
  BorderPorts, BorderHighlightUi, WindowCapture, is_pulse, is_dim, unless_returned, safe_set,
  read_slot, apply_size, elevate, draw, dim_slots, dim_window, dim_loop, dim_snapshot, dim_ring,
  decorate, start_pulse, cancel_pulse, toggle, pulse_tick, highlight_window, highlight_at,
  highlight, restore_slot, restore_window, restore_windows, restore_all,
}
use mru_switcher.Border.Undo.{safe_set-snapshot, warn_once-snapshot, reported-snapshot}

module _ {B : BorderPorts} where
  -- The snapshot is `o`.
  abbrev pub Has : Option Snapshot → BorderHighlightUi B → Type 0
  Has o u = u.snapshot ≡ o

  unless_returned-Has :
      (r : _) (b : Bool) {o : _} (u : BorderHighlightUi B) → Has o u → Has o (unless_returned r b u)
  unfolding unless_returned
  unless_returned-Has r true u h = h
  unless_returned-Has r false u h = warn_once-snapshot r u ∙ h

  pub elevate-Has :
      {o : _} (ref : WindowRef) (u : BorderHighlightUi B) → Has o u → Has o (elevate ref u)
  unfolding elevate
  elevate-Has ref u h = unless_returned-Has _ _ _ h

  safe_set-Has :
      (a : ℕ) (s : BorderSlot) (v : Bytes) {o : _} (u : BorderHighlightUi B)
      → Has o u
      → Has o (safe_set a s v u).0
  safe_set-Has a s v u h = safe_set-snapshot a s v u ∙ h

  apply_size-Has :
      (z : ℤ) (a : ℕ) {o : _} (u : BorderHighlightUi B) → Has o u → Has o (apply_size z a u).0
  unfolding apply_size
  apply_size-Has (negsuc n) a u h = h
  apply_size-Has (pos n) a u h = safe_set-Has a BorderSlot.size _ u h

  pub draw-Has :
      {o : _} (ref : WindowRef) (active inactive : Bytes) (u : BorderHighlightUi B)
      → Has o u
      → Has o (draw ref active inactive u)
  unfolding draw
  draw-Has ref active inactive u h =
      apply_size-Has _ ref.address _
        (safe_set-Has ref.address inactive_color _ _ (safe_set-Has ref.address active_color _ u h))

  cancel_pulse-Has : {o : _} (u : BorderHighlightUi B) → Has o u → Has o (cancel_pulse u)
  unfolding cancel_pulse
  cancel_pulse-Has u h = h

  start_pulse-Has : {o : _} (u : BorderHighlightUi B) → Has o u → Has o (start_pulse u)
  unfolding start_pulse
  start_pulse-Has {o} u h =
      let v = cancel_pulse u in
      if_cases (Has o) (not (is_pulse v.style) || v.degraded) (λ _. cancel_pulse-Has u h)
        (λ _. reported-snapshot _ _ _ _ ∙ cancel_pulse-Has u h)

  toggle-Has :
      {o : _} (caps : List WindowCapture) (u : BorderHighlightUi B)
      → Has o u
      → Has o (toggle caps u)
  unfolding toggle
  toggle-Has [] u h = h
  toggle-Has (head ∷ caps) u h = safe_set-Has _ _ _ _ (safe_set-Has _ _ _ _ h)

  pub pulse_tick-Has : {o : _} (u : BorderHighlightUi B) → Has o u → Has o (pulse_tick u)
  unfolding pulse_tick
  pulse_tick-Has {o} u h =
      if_cases (Has o) (not (is_pulse u.style) || u.degraded) (λ _. h)
        (λ _. toggle-Has u.captures u h)

  dim_slots-Has :
      {o : _} (ref : WindowRef) (before before_inactive : Bytes) (u : BorderHighlightUi B)
      → Has o u
      → Has o (dim_slots ref before before_inactive u)
  unfolding dim_slots
  dim_slots-Has ref before before_inactive u h = safe_set-Has _ _ _ _ (safe_set-Has _ _ _ _ h)

  dim_window-Has :
      {o : _} (ref : WindowRef) (u : BorderHighlightUi B) → Has o u → Has o (dim_window ref u)
  unfolding dim_window
  dim_window-Has {o} ref u h =
      let before = read_slot B ref.address alpha u.world in
      let before_inactive = read_slot B ref.address alpha_inactive u.world in
      if_cases (Has o) (not (B.is_valid u.world ref)) (λ _. h)
        (λ _.
          if_cases (Has o) (is_empty before || is_empty before_inactive)
            (λ _. warn_once-snapshot _ u ∙ h) (λ _. dim_slots-Has ref before before_inactive u h))

  dim_loop-Has :
      (selected i : ℕ) (refs : List WindowRef) {o : _} (u : BorderHighlightUi B)
      → Has o u
      → Has o (dim_loop selected i refs u)
  unfolding dim_loop
  dim_loop-Has selected i [] u h = h
  dim_loop-Has selected i (ref ∷ refs) {o} u h =
      dim_loop-Has selected (i + 1) refs _
        (if_cases (Has o) (i == selected) (λ _. h) (λ _. dim_window-Has ref u h))

  dim_snapshot-Has :
      (p : Option Snapshot) (i : ℕ) {o : _} (u : BorderHighlightUi B)
      → Has o u
      → Has o (dim_snapshot p i u)
  unfolding dim_snapshot
  dim_snapshot-Has none i u h = h
  dim_snapshot-Has (some s) i {o} u h =
      if_cases (Has o) u.dim_off (λ _. h) (λ _. dim_loop-Has i 0 s.windows u h)

  decorate-Has : (i : ℕ) {o : _} (u : BorderHighlightUi B) → Has o u → Has o (decorate i u)
  unfolding decorate dim_ring
  decorate-Has i {o} u h =
      if_cases (Has o) (is_pulse u.style) (λ _. start_pulse-Has u h)
        (λ _. if_cases (Has o) (is_dim u.style) (λ _. dim_snapshot-Has u.snapshot i u h) (λ _. h))

  highlight_window-Has :
      (i : ℕ) (ref : WindowRef) {o : _} (u : BorderHighlightUi B)
      → Has o u
      → Has o (highlight_window i ref u)
  unfolding highlight_window
  highlight_window-Has i ref {o} u h =
      let active = read_slot B ref.address active_color u.world in
      let inactive = read_slot B ref.address inactive_color u.world in
      if_cases (Has o) (not (B.is_valid u.world ref)) (λ _. h)
        (λ _.
          if_cases (Has o) (is_empty active || is_empty inactive) (λ _. warn_once-snapshot _ u ∙ h)
            (λ _. decorate-Has i _ (draw-Has ref active inactive _ (elevate-Has ref u h))))

  highlight_at-Has :
      (p : Option WindowRef) (i : ℕ) {o : _} (u : BorderHighlightUi B)
      → Has o u
      → Has o (highlight_at p i u)
  unfolding highlight_at
  highlight_at-Has none i u h = h
  highlight_at-Has (some ref) i u h = highlight_window-Has i ref u h

  pub highlight-Has : (i : ℕ) {o : _} (u : BorderHighlightUi B) → Has o u → Has o (highlight i u)
  unfolding highlight
  highlight-Has i {o} u h =
      if_cases (Has o) u.degraded (λ _. h)
        (λ _. highlight_at-Has (u.snapshot >>= λ s. at s i) i u h)

  restore_slot-Has :
      (b : Bool) (a : ℕ) (s : BorderSlot) (v : Bytes) {o : _} (u : BorderHighlightUi B)
      → Has o u
      → Has o (restore_slot b a s v u)
  unfolding restore_slot
  restore_slot-Has true a s v u h = safe_set-Has a s v u h
  restore_slot-Has false a s v u h = h

  restore_windows-Has :
      (caps : List WindowCapture) {o : _} (u : BorderHighlightUi B)
      → Has o u
      → Has o (restore_windows caps u)
  unfolding restore_windows restore_window
  restore_windows-Has [] u h = h
  restore_windows-Has (cap ∷ caps) u h = restore_windows-Has caps _ (
      restore_slot-Has _ _ _ _ _ (
        restore_slot-Has _ _ _ _ _
          (restore_slot-Has _ _ _ _ _ (restore_slot-Has _ _ _ _ _ (restore_slot-Has _ _ _ _ u h)))))

  pub restore_all-Has : {o : _} (u : BorderHighlightUi B) → Has o u → Has o (restore_all u)
  unfolding restore_all
  restore_all-Has u h = restore_windows-Has u.captures _ (cancel_pulse-Has u h)
