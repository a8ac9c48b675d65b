-- ===== src/Border/Defs/Calls.antt =====
-- The pulse, the dimming and the highlight of a window, and the calls of the user interface port.
use mru_switcher.Prelude.{
  ℕ, ◌+◌, Bool, true, false, not, ◌&&◌, ◌||◌, List, [], ◌∷◌, ◌++◌, Option, none, some, ◌>>=◌, ◌==◌,
  if◌then◌else◌, is_empty, Bytes, ℤ, pos, negsuc, to_string,
}
use mru_switcher.Window.{WindowRef}
use mru_switcher.Snapshot.{Snapshot, at}
use mru_switcher.Ports.{UiEndReason}
use mru_switcher.Border.Color.{darker_color}
use mru_switcher.Border.Capture.{BorderSlot, active_color, inactive_color, alpha, alpha_inactive}
use mru_switcher.Border.Defs.Slots.{
  BorderPorts, WindowCapture, no_slot, BorderHighlightUi, is_pulse, is_dim, read_slot, warn_once,
  reported, unless_returned, safe_set, cancel_pulse, restore_all,
}

module _ {B : BorderPorts} where
  unfoldable pub start_pulse : BorderHighlightUi B → BorderHighlightUi B
  start_pulse u =
      let v = cancel_pulse u in
      if not (is_pulse v.style) || v.degraded
      then v
      else (let (w, outcome) = B.schedule v.world v.half_cycle_ms in
          reported "pulse timer unavailable; keeping constant highlight colour"
            "pulse timer failed; keeping constant highlight colour" outcome
            (record v { world = w }))

  -- The colours of the window that is captured first.
  unfoldable pub toggle : List WindowCapture → BorderHighlightUi B → BorderHighlightUi B
  toggle [] u = u
  toggle (head ∷ caps) u =
      let dark = not u.pulse_dark in
      let toggled = if dark then darker_color u.color else u.color in
      let a = head.ref.address in
      (safe_set a inactive_color toggled
        (safe_set a active_color toggled (record u { pulse_dark = dark })).0).0

  -- One tick of the timer.
  unfoldable pub pulse_tick : BorderHighlightUi B → BorderHighlightUi B
  unfolding toggle
  pulse_tick u = if not (is_pulse u.style) || u.degraded then u else toggle u.captures u

  -- Both strengths are written, and what they were is kept.
  unfoldable pub dim_slots : WindowRef → Bytes → Bytes → BorderHighlightUi B → BorderHighlightUi B
  dim_slots ref before before_inactive u =
      let a = ref.address in
      let (v, first) = safe_set a alpha u.dim_value u in
      let (w, second) = safe_set a alpha_inactive u.dim_value v in
      record w {
        captures =
            w.captures
            ++ record {
              ref = ref;
              active = no_slot;
              inactive = no_slot;
              alpha = record { value = before; applied = first };
              alpha_inactive = record { value = before_inactive; applied = second };
              size_applied = false;
              size_captured = false;
              size_value = [];
            }
              ∷ [];
      }

  -- The window of the list at `i`, in the loop of `dim_ring`.
  unfoldable pub dim_window : WindowRef → BorderHighlightUi B → BorderHighlightUi B
  unfolding dim_slots
  dim_window ref u =
      if not (B.is_valid u.world ref)
      then u
      else (let before = read_slot B ref.address alpha u.world in
          let before_inactive = read_slot B ref.address alpha_inactive u.world in
          if is_empty before || is_empty before_inactive
          then warn_once "alpha read failed for a ring window; skipping its dim" u
          else dim_slots ref before before_inactive u)

  -- The loop from the index `i` on.
  unfoldable pub dim_loop : ℕ → ℕ → List WindowRef → BorderHighlightUi B → BorderHighlightUi B
  dim_loop selected i [] u = u
  dim_loop selected i (ref ∷ refs) u =
      dim_loop selected (i + 1) refs (if i == selected then u else dim_window ref u)

  unfoldable pub dim_snapshot : Option Snapshot → ℕ → BorderHighlightUi B → BorderHighlightUi B
  unfolding dim_loop
  dim_snapshot none selected u = u
  dim_snapshot (some s) selected u = if u.dim_off then u else dim_loop selected 0 s.windows u

  unfoldable pub dim_ring : ℕ → BorderHighlightUi B → BorderHighlightUi B
  unfolding dim_snapshot
  dim_ring selected u = dim_snapshot u.snapshot selected u

  -- The size of the border, where one is configured: whether it was written, whether it was read
  -- before, and what it was.
  unfoldable pub apply_size :
      ℤ → ℕ → BorderHighlightUi B → BorderHighlightUi B × (Bool × (Bool × Bytes))
  apply_size (negsuc n) address u = (u, (false, (false, [])))
  apply_size (pos n) address u =
      let prior = read_slot B address BorderSlot.size u.world in
      let (v, applied) = safe_set address BorderSlot.size (to_string n) u in
      let captured = applied && not (is_empty prior) in
      (v, (applied, (captured, (if captured then prior else []))))

  unfoldable pub elevate : WindowRef → BorderHighlightUi B → BorderHighlightUi B
  unfolding unless_returned
  elevate ref u =
      let (w, returned) = B.ensure_visible u.world ref in
      unless_returned "workspace elevation failed" returned (record u { world = w })

  -- Both colours and the size are written, and what they were is kept.
  unfoldable pub draw : WindowRef → Bytes → Bytes → BorderHighlightUi B → BorderHighlightUi B
  draw ref active inactive u =
      let a = ref.address in
      let (x, first) = safe_set a active_color u.color u in
      let (y, second) = safe_set a inactive_color u.color x in
      let (z, (written, (captured, prior))) = apply_size y.size a y in
      record z {
        captures =
            z.captures
            ++ record {
              ref = ref;
              active = record { value = active; applied = first };
              inactive = record { value = inactive; applied = second };
              alpha = no_slot;
              alpha_inactive = no_slot;
              size_applied = written;
              size_captured = captured;
              size_value = prior;
            }
              ∷ [];
      }

  -- The side effects of the style.
  unfoldable pub decorate : ℕ → BorderHighlightUi B → BorderHighlightUi B
  decorate index u =
      if is_pulse u.style then start_pulse u else if is_dim u.style then dim_ring index u else u

  unfoldable pub highlight_window : ℕ → WindowRef → BorderHighlightUi B → BorderHighlightUi B
  highlight_window index ref u =
      if not (B.is_valid u.world ref)
      then u
      else (let active = read_slot B ref.address active_color u.world in
          let inactive = read_slot B ref.address inactive_color u.world in
          if is_empty active || is_empty inactive
          then warn_once "border property read failed; skipping highlight" u
          else decorate index (draw ref active inactive (elevate ref u)))

  unfoldable pub highlight_at : Option WindowRef → ℕ → BorderHighlightUi B → BorderHighlightUi B
  unfolding highlight_window
  highlight_at none index u = u
  highlight_at (some ref) index u = highlight_window index ref u

  -- `at` is `none` where the index is not below the size.
  unfoldable pub highlight : ℕ → BorderHighlightUi B → BorderHighlightUi B
  unfolding highlight_at
  highlight index u =
      if u.degraded then u else highlight_at (u.snapshot >>= λ s. at s index) index u

  -- The loop of `probe_available`: the first window that is valid decides.
  unfoldable pub probe_available : List WindowRef → BorderHighlightUi B → Bool
  probe_available [] u = true
  probe_available (ref ∷ refs) u =
      if B.is_valid u.world ref
      then elim (B.get u.world ref.address active_color) [
        | none ↦ false
        | some raw ↦ not (is_empty raw)
      ]
      else probe_available refs u

  unfoldable pub on_session_start : Snapshot → ℕ → BorderHighlightUi B → BorderHighlightUi B
  on_session_start s index u =
      let v = restore_all u in
      let x : BorderHighlightUi B = record v {
        snapshot = some s;
        degraded = false;
        world = B.begin v.world;
      } in
      if probe_available s.windows x
      then highlight index x
      else warn_once "border API unavailable; highlight disabled for this session"
          (record x { degraded = true })

  unfoldable pub on_selection_changed : ℕ → BorderHighlightUi B → BorderHighlightUi B
  on_selection_changed index u = highlight index (restore_all u)

  unfoldable pub on_session_end : UiEndReason → BorderHighlightUi B → BorderHighlightUi B
  on_session_end reason u =
      let v = restore_all u in
      let (w, returned) = B.finish v.world reason in
      let x = unless_returned "workspace restore failed" returned (record v { world = w }) in
      record x { snapshot = none; degraded = false }
