-- ===== src/Border/Held.antt =====
-- What the captures of src/plugin/border_highlight_ui.cpp hold of a watched property, and the pulse.
use mru_switcher.Prelude.{
  ℕ, ◌≡◌, refl, sym, ap, subst, ◌∙◌, Bool, true, ◌&&◌, if◌then◌else◌, codes, List, [], ◌∷◌,
  if_cases, Bytes, arith,
}
use mru_switcher.Border.Capture.{BorderSlot, active_color, inactive_color, alpha, alpha_inactive}
use mru_switcher.Border.Defs.{
  BorderPorts, BorderHighlightUi, WindowCapture, safe_set, toggle, pulse_tick,
}
use mru_switcher.Border.Watched.{Watched}
use mru_switcher.Border.Undo.{
  same, written, written_if, back, undone, shown-safe_set, safe_set-captures,
}

-- Values that are written again under the test under which they were written.
write_again {ℓ} :
    {A : Type ℓ} (p q w first second : Bool) (c d v y : A)
    → (p ≡ true → first ≡ w)
    → (q ≡ true → second ≡ w)
    → let z = if q && w then v else if p && w then v else y in
      let active = λ (x : A). if first then (if p && w then c else x) else x in
      let inactive = λ (x : A). if second then (if q && w then d else x) else x in
      inactive (active z) ≡ inactive (active y)
write_again p q w first second c d v y h k = ground arith

module _ {B : BorderPorts} {a0 : ℕ} {s0 : BorderSlot} (K : Watched B a0 s0) where
  -- The colours of the first window were written where a write to the watched property is done.
  abbrev pub Marked : List WindowCapture → Type 0
  Marked [] = Unit
  Marked (cap ∷ caps) =
      (same K cap.ref.address active_color ≡ true → cap.active.applied ≡ K.writable)
      × (same K cap.ref.address inactive_color ≡ true → cap.inactive.applied ≡ K.writable)

  -- Restoring gives `x`.
  abbrev pub Holds : K.Shown → BorderHighlightUi B → Type 0
  Holds x u = (undone K u.captures (K.shown u.world) ≡ x) × Marked u.captures

  -- Of the two colours, which the tick writes once more.
  tick_colors :
      (a : ℕ) (active inactive v : Bytes) (first second : Bool) (y : K.Shown)
      → (same K a active_color ≡ true → first ≡ K.writable)
      → (same K a inactive_color ≡ true → second ≡ K.writable)
      → written_if K second a inactive_color inactive (
          written_if K first a active_color active
            (written K a inactive_color v (written K a active_color v y)))
        ≡ written_if K second a inactive_color inactive (written_if K first a active_color active y)
  tick_colors a active inactive v first second y h k =
      write_again (same K a active_color) (same K a inactive_color) K.writable first second
        (K.means active) (K.means inactive) (K.means v) y h k

  back-tick :
      (cap : WindowCapture) (v : Bytes) (y : K.Shown)
      → Marked (cap ∷ [])
      → back K cap
          (written K cap.ref.address inactive_color v (written K cap.ref.address active_color v y))
        ≡ back K cap y
  unfolding back
  back-tick cap v y (h, k) =
      let a = cap.ref.address in
      ap
        (λ z.
          written_if K cap.size_applied a BorderSlot.size
            (if cap.size_captured then cap.size_value else codes "unset")
            (written_if K cap.alpha_inactive.applied a alpha_inactive cap.alpha_inactive.value
              (written_if K cap.alpha.applied a alpha cap.alpha.value z)))
        (tick_colors a cap.active.value cap.inactive.value v cap.active.applied cap.inactive.applied
          y h k)

  pub safe_set-twice-captures :
      (a : ℕ) (s t : BorderSlot) (v w : Bytes) (u : BorderHighlightUi B)
      → (safe_set a t w (safe_set a s v u).0).0.captures ≡ u.captures
  safe_set-twice-captures a s t v w u =
      safe_set-captures a t w (safe_set a s v u).0 ∙ safe_set-captures a s v u

  pub shown-safe_set-twice :
      (a : ℕ) (s t : BorderSlot) (v w : Bytes) (u : BorderHighlightUi B)
      → K.shown (safe_set a t w (safe_set a s v u).0).0.world
        ≡ written K a t w (written K a s v (K.shown u.world))
  shown-safe_set-twice a s t v w u =
      shown-safe_set K a t w (safe_set a s v u).0 ∙ ap (written K a t w) (shown-safe_set K a s v u)

  toggle-Holds :
      (caps : List WindowCapture) (x : K.Shown) (u : BorderHighlightUi B)
      → caps ≡ u.captures
      → Holds x u
      → Holds x (toggle caps u)
  unfolding toggle undone
  toggle-Holds [] x u e h = h
  toggle-Holds (head ∷ caps) x u e h =
      let (undo, marked) =
        subst (λ cs. (undone K cs (K.shown u.world) ≡ x) × Marked cs) (sym e) h in
      rw (safe_set-twice-captures, shown-safe_set-twice, sym e)
        (ap (undone K caps) (back-tick head _ _ marked) ∙ undo, marked)

  pub pulse_tick-Holds :
      (x : K.Shown) (u : BorderHighlightUi B) → Holds x u → Holds x (pulse_tick u)
  unfolding pulse_tick
  pulse_tick-Holds x u h = if_cases (Holds x) _ (λ _. h) (λ _. toggle-Holds u.captures x u refl h)
