-- ===== src/Border/Highlight.antt =====
-- `highlight` of src/plugin/border_highlight_ui.cpp, and a watched property.
use mru_switcher.Prelude.{
  ℕ, ◌≡◌, refl, sym, ◌∙◌, subst, true, false, not, ◌||◌, [], if_cases, is_empty, is_empty-last,
  Bytes, Option, none, some, ◌>>=◌, arith,
}
use mru_switcher.Window.{WindowRef}
use mru_switcher.Snapshot.{Snapshot, at}
use mru_switcher.Border.Capture.{BorderSlot, active_color, inactive_color}
use mru_switcher.Border.Defs.{
  BorderPorts, BorderHighlightUi, is_pulse, is_dim, reported, warn_once, read_slot, elevate, draw,
  dim_ring, dim_snapshot, decorate, start_pulse, cancel_pulse, highlight_window, highlight_at,
  highlight, restore_all,
}
use mru_switcher.Border.Watched.{Watched}
use mru_switcher.Border.Undo.{
  undone, shown-restore_all, warn_once-world, warn_once-captures, reported-world, reported-captures,
}
use mru_switcher.Border.Held.{Holds}
use mru_switcher.Border.Draw.{means-read_slot, elevate-captures, shown-elevate, draw-Holds}
use mru_switcher.Border.Frame.{elevate-Has, draw-Has}
use mru_switcher.Border.Dim.{Apart, is_dimmed, dim_loop-Holds, shown-draw}

-- The windows of the session have different addresses.
abbrev pub Separate : Option Snapshot → Type 0
Separate none = Unit
Separate (some s) = Apart s.windows

module _ {B : BorderPorts} {a0 : ℕ} {s0 : BorderSlot} (K : Watched B a0 s0) where
  pub warn_once-Holds :
      (r : _) (x : K.Shown) (u : BorderHighlightUi B) → Holds K x u → Holds K x (warn_once r u)
  warn_once-Holds r x u h = rw (warn_once-world, warn_once-captures) h

  reported-Holds :
      (r r' : _) (o : _) (x : K.Shown) (u : BorderHighlightUi B)
      → Holds K x u
      → Holds K x (reported r r' o u)
  reported-Holds r r' o x u h = rw (reported-world, reported-captures) h

  cancel_pulse-Holds :
      (x : K.Shown) (u : BorderHighlightUi B) → Holds K x u → Holds K x (cancel_pulse u)
  unfolding cancel_pulse
  cancel_pulse-Holds x u h = rw K.shown-cancel h

  start_pulse-Holds :
      (x : K.Shown) (u : BorderHighlightUi B) → Holds K x u → Holds K x (start_pulse u)
  unfolding start_pulse
  start_pulse-Holds x u h =
      let v = cancel_pulse u in
      let kept = cancel_pulse-Holds x u h in
      if_cases (Holds K x) (not (is_pulse v.style) || v.degraded) (λ _. kept)
        (λ _. reported-Holds _ _ _ x _ (rw K.shown-schedule kept))

  dim_snapshot-Holds :
      (i : ℕ) (o : Option Snapshot) (x : K.Shown) (u : BorderHighlightUi B)
      → Separate o
      → Holds K x u
      → is_empty u.captures ≡ false
      → (is_dimmed s0 ≡ true → K.shown u.world ≡ x)
      → Holds K x (dim_snapshot o i u)
  unfolding dim_snapshot
  dim_snapshot-Holds i none x u apart h n d = h
  dim_snapshot-Holds i (some s) x u apart h n d =
      if_cases (Holds K x) u.dim_off (λ _. h)
        (λ _. dim_loop-Holds K i 0 s.windows x u apart (h, n, λ m _. d m))

  decorate-Holds :
      (i : ℕ) (x : K.Shown) (u : BorderHighlightUi B)
      → Separate u.snapshot
      → Holds K x u
      → is_empty u.captures ≡ false
      → (is_dimmed s0 ≡ true → K.shown u.world ≡ x)
      → Holds K x (decorate i u)
  unfolding decorate dim_ring
  decorate-Holds i x u apart h n d =
      if_cases (Holds K x) (is_pulse u.style) (λ _. start_pulse-Holds x u h)
        (λ _.
          if_cases (Holds K x) (is_dim u.style)
            (λ _. dim_snapshot-Holds i u.snapshot x u apart h n d) (λ _. h))

  -- Before any window is captured.
  unfoldable pub Idle : K.Shown → BorderHighlightUi B → Type 0
  Idle x u = (u.captures ≡ []) × (K.shown u.world ≡ x)

  pub Idle-Holds : (x : K.Shown) (u : BorderHighlightUi B) → Idle x u → Holds K x u
  unfolding undone Idle
  Idle-Holds x u (c, e) = rw c (e, tt)

  draw-some :
      (ref : WindowRef) (active inactive : Bytes) (u : BorderHighlightUi B)
      → is_empty (draw ref active inactive u).captures ≡ false
  unfolding draw
  draw-some ref active inactive u = is_empty-last _ _

  drawn-Holds :
      (i : ℕ) (ref : WindowRef) (x : K.Shown) (u : BorderHighlightUi B)
      → Separate u.snapshot
      → Idle x u
      → is_empty (read_slot B ref.address active_color u.world) ≡ false
      → is_empty (read_slot B ref.address inactive_color u.world) ≡ false
      → Holds K x (
          decorate i (
            draw ref
              (read_slot B ref.address active_color u.world)
              (read_slot B ref.address inactive_color u.world)
              (elevate ref u)))
  unfolding Idle
  drawn-Holds i ref x u apart (c, e) active inactive =
      let v = elevate ref u in
      let shows = shown-elevate K ref u ∙ e in
      decorate-Holds i x _
        (subst Separate (sym (draw-Has ref _ _ v (elevate-Has ref u refl))) apart)
        (draw-Holds K ref _ _ x v (elevate-captures K ref u ∙ c) shows
          (λ m. means-read_slot K ref.address active_color u.world active m ∙ e)
          (λ m. means-read_slot K ref.address inactive_color u.world inactive m ∙ e))
        (draw-some ref _ _ v) (λ d. shown-draw K ref _ _ v d ∙ shows)

  highlight_window-Holds :
      (i : ℕ) (ref : WindowRef) (x : K.Shown) (u : BorderHighlightUi B)
      → Separate u.snapshot
      → Idle x u
      → Holds K x (highlight_window i ref u)
  unfolding highlight_window
  highlight_window-Holds i ref x u apart idle =
      let active = read_slot B ref.address active_color u.world in
      let inactive = read_slot B ref.address inactive_color u.world in
      if_cases (Holds K x) (not (B.is_valid u.world ref)) (λ _. Idle-Holds x u idle)
        (λ _.
          if_cases (Holds K x) (is_empty active || is_empty inactive)
            (λ _. warn_once-Holds _ x u (Idle-Holds x u idle))
            (λ e. drawn-Holds i ref x u apart idle (ground arith) (ground arith)))

  highlight_at-Holds :
      (p : Option WindowRef) (i : ℕ) (x : K.Shown) (u : BorderHighlightUi B)
      → Separate u.snapshot
      → Idle x u
      → Holds K x (highlight_at p i u)
  unfolding highlight_at
  highlight_at-Holds none i x u apart idle = Idle-Holds x u idle
  highlight_at-Holds (some ref) i x u apart idle = highlight_window-Holds i ref x u apart idle

  pub highlight-Holds :
      (i : ℕ) (x : K.Shown) (u : BorderHighlightUi B)
      → Separate u.snapshot
      → Idle x u
      → Holds K x (highlight i u)
  unfolding highlight
  highlight-Holds i x u apart idle =
      if_cases (Holds K x) u.degraded (λ _. Idle-Holds x u idle)
        (λ _. highlight_at-Holds (u.snapshot >>= λ s. at s i) i x u apart idle)

  pub restore_all-Idle :
      (x : K.Shown) (u : BorderHighlightUi B) → Holds K x u → Idle x (restore_all u)
  unfolding Idle restore_all
  restore_all-Idle x u h = (refl, shown-restore_all K u ∙ h.0)
