-- ===== src/Border/Undo.antt =====
-- The restoration of the captures in src/plugin/border_highlight_ui.cpp, on a watched property.
use mru_switcher.Prelude.{
  ℕ, ◌≡◌, refl, ap, ◌∙◌, Bool, true, false, ◌&&◌, List, [], ◌∷◌, ◌++◌, ◌==◌, if◌then◌else◌, Bytes,
  codes, arith,
}
use mru_switcher.Border.Capture.{BorderSlot, active_color, inactive_color, alpha, alpha_inactive}
use mru_switcher.Border.Defs.{
  Outcome, BorderPorts, BorderHighlightUi, WindowCapture, warn_once, reported, safe_set,
  restore_slot, restore_window, restore_windows, restore_all, cancel_pulse,
}
use mru_switcher.Border.Watched.{Watched, slot_eq}

module _ {B : BorderPorts} where
  pub warn_once-world : (r : _) (u : BorderHighlightUi B) → (warn_once r u).world ≡ u.world
  unfolding warn_once
  warn_once-world r u = ground arith

  pub warn_once-captures : (r : _) (u : BorderHighlightUi B) → (warn_once r u).captures ≡ u.captures
  unfolding warn_once
  warn_once-captures r u = ground arith

  pub warn_once-snapshot : (r : _) (u : BorderHighlightUi B) → (warn_once r u).snapshot ≡ u.snapshot
  unfolding warn_once
  warn_once-snapshot r u = ground arith

  pub reported-world :
      (r r' : _) (o : Outcome) (u : BorderHighlightUi B) → (reported r r' o u).world ≡ u.world
  unfolding reported
  reported-world r r' Outcome.done u = refl
  reported-world r r' Outcome.refused u = warn_once-world r u
  reported-world r r' Outcome.threw u = warn_once-world r' u

  pub reported-captures :
      (r r' : _) (o : Outcome) (u : BorderHighlightUi B) → (reported r r' o u).captures ≡ u.captures
  unfolding reported
  reported-captures r r' Outcome.done u = refl
  reported-captures r r' Outcome.refused u = warn_once-captures r u
  reported-captures r r' Outcome.threw u = warn_once-captures r' u

  pub reported-snapshot :
      (r r' : _) (o : Outcome) (u : BorderHighlightUi B) → (reported r r' o u).snapshot ≡ u.snapshot
  unfolding reported
  reported-snapshot r r' Outcome.done u = refl
  reported-snapshot r r' Outcome.refused u = warn_once-snapshot r u
  reported-snapshot r r' Outcome.threw u = warn_once-snapshot r' u

  pub safe_set-captures :
      (a : ℕ) (s : BorderSlot) (v : Bytes) (u : BorderHighlightUi B)
      → (safe_set a s v u).0.captures ≡ u.captures
  unfolding safe_set
  safe_set-captures a s v u = reported-captures _ _ _ _

  pub safe_set-snapshot :
      (a : ℕ) (s : BorderSlot) (v : Bytes) (u : BorderHighlightUi B)
      → (safe_set a s v u).0.snapshot ≡ u.snapshot
  unfolding safe_set
  safe_set-snapshot a s v u = reported-snapshot _ _ _ _

module _ {B : BorderPorts} {a0 : ℕ} {s0 : BorderSlot} (K : Watched B a0 s0) where
  -- The watched property is the slot `s` of the window at `a`.
  abbrev pub same : ℕ → BorderSlot → Bool
  same a s = a == a0 && slot_eq s s0

  -- After a write.
  abbrev pub written : ℕ → BorderSlot → Bytes → K.Shown → K.Shown
  written a s v x = if same a s && K.writable then K.means v else x

  abbrev pub written_if : Bool → ℕ → BorderSlot → Bytes → K.Shown → K.Shown
  written_if applied a s v x = if applied then written a s v x else x

  -- After `restore_window` and `restore_windows`.
  unfoldable pub back : WindowCapture → K.Shown → K.Shown
  back cap x =
      let a = cap.ref.address in
      written_if cap.size_applied a BorderSlot.size
        (if cap.size_captured then cap.size_value else codes "unset")
        (written_if cap.alpha_inactive.applied a alpha_inactive cap.alpha_inactive.value (
          written_if cap.alpha.applied a alpha cap.alpha.value (
            written_if cap.inactive.applied a inactive_color cap.inactive.value
              (written_if cap.active.applied a active_color cap.active.value x))))

  unfoldable pub undone : List WindowCapture → K.Shown → K.Shown
  unfolding back
  undone [] x = x
  undone (cap ∷ caps) x = undone caps (back cap x)

  pub undone-append :
      (xs ys : List WindowCapture) (x : K.Shown) → undone (xs ++ ys) x ≡ undone ys (undone xs x)
  unfolding undone
  undone-append [] ys x = refl
  undone-append (c ∷ xs) ys x = undone-append xs ys (back c x)

  pub shown-safe_set :
      (a : ℕ) (s : BorderSlot) (v : Bytes) (u : BorderHighlightUi B)
      → K.shown (safe_set a s v u).0.world ≡ written a s v (K.shown u.world)
  unfolding safe_set
  shown-safe_set a s v u = ap K.shown (reported-world _ _ _ _) ∙ K.shown-set u.world a s v

  shown-restore_slot :
      (b : Bool) (a : ℕ) (s : BorderSlot) (v : Bytes) (u : BorderHighlightUi B)
      → K.shown (restore_slot b a s v u).world ≡ written_if b a s v (K.shown u.world)
  unfolding restore_slot
  shown-restore_slot true a s v u = shown-safe_set a s v u
  shown-restore_slot false a s v u = refl

  shown-restore_window :
      (cap : WindowCapture) (u : BorderHighlightUi B)
      → K.shown (restore_window cap u).world ≡ back cap (K.shown u.world)
  unfolding restore_window back
  shown-restore_window cap u =
      rw
        (
          shown-restore_slot, shown-restore_slot, shown-restore_slot, shown-restore_slot,
          shown-restore_slot,
        )
        refl

  shown-restore_windows :
      (caps : List WindowCapture) (u : BorderHighlightUi B)
      → K.shown (restore_windows caps u).world ≡ undone caps (K.shown u.world)
  unfolding restore_windows undone
  shown-restore_windows [] u = refl
  shown-restore_windows (cap ∷ caps) u =
      shown-restore_windows caps (restore_window cap u)
      ∙ ap (undone caps) (shown-restore_window cap u)

  pub shown-restore_all :
      (u : BorderHighlightUi B)
      → K.shown (restore_all u).world ≡ undone u.captures (K.shown u.world)
  unfolding restore_all cancel_pulse
  shown-restore_all u =
      shown-restore_windows u.captures (cancel_pulse u)
      ∙ ap (undone u.captures) (K.shown-cancel u.world)
