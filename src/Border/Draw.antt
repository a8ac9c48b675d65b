-- ===== src/Border/Draw.antt =====
-- The highlight of one window in src/plugin/border_highlight_ui.cpp, and a watched property.
use mru_switcher.Prelude.{
  ℕ, ◌≡◌, refl, sym, ap, ◌∙◌, Bool, true, false, not, ◌&&◌, List, [], ◌∷◌, ◌++◌, if◌then◌else◌,
  is_empty, Bytes, codes, ℤ, pos, negsuc, to_string, arith,
}
use mru_switcher.Window.{WindowRef}
use mru_switcher.Border.Capture.{BorderSlot, active_color, inactive_color}
use mru_switcher.Border.Defs.{
  BorderPorts, BorderHighlightUi, WindowCapture, unless_returned, elevate, safe_set, read_slot,
  apply_size, draw,
}
use mru_switcher.Border.Watched.{Watched, slot_eq}
use mru_switcher.Border.Undo.{
  same, written, written_if, back, undone, shown-safe_set, safe_set-captures, warn_once-world,
  warn_once-captures,
}
use mru_switcher.Border.Held.{Holds, Marked, safe_set-twice-captures, shown-safe_set-twice}

module _ {B : BorderPorts} {a0 : ℕ} {s0 : BorderSlot} (K : Watched B a0 s0) where
  pub same_slot : (s t : BorderSlot) → slot_eq s t ≡ true → s ≡ t
  same_slot s t h = ground arith

  same-both : (a : ℕ) (s : BorderSlot) → same K a s ≡ true → (a ≡ a0) × (s ≡ s0)
  same-both a s h = (ground arith, same_slot s s0 (ground arith))

  -- A write of the watched property is done where such writes are.
  pub safe_set-writable :
      (a : ℕ) (s : BorderSlot) (v : Bytes) (u : BorderHighlightUi B)
      → same K a s ≡ true
      → (safe_set a s v u).1 ≡ K.writable
  unfolding safe_set
  safe_set-writable a s v u h =
      let (at_address, at_slot) = same-both a s h in rw (at_address, at_slot) (K.set_done u.world v)

  -- What was read of the watched property means what was shown.
  pub means-read_slot :
      (a : ℕ) (s : BorderSlot) (w : B.World)
      → is_empty (read_slot B a s w) ≡ false
      → same K a s ≡ true
      → K.means (read_slot B a s w) ≡ K.shown w
  means-read_slot a s w e h =
      let (at_address, at_slot) = same-both a s h in
      ap K.means (rw (at_address, at_slot) refl)
      ∙ K.shown-read w (rw (sym at_address, sym at_slot) e)

  means_unset :
      (a : ℕ) (w : B.World)
      → is_empty (read_slot B a BorderSlot.size w) ≡ true
      → same K a BorderSlot.size ≡ true
      → K.means (codes "unset") ≡ K.shown w
  means_unset a w e h =
      let (at_address, at_slot) = same-both a BorderSlot.size h in
      K.shown-unset w (sym at_slot) (rw (sym at_address, sym at_slot) e)

  apply_size-captures :
      (z : ℤ) (a : ℕ) (u : BorderHighlightUi B) → (apply_size z a u).0.captures ≡ u.captures
  unfolding apply_size
  apply_size-captures (negsuc n) a u = refl
  apply_size-captures (pos n) a u = safe_set-captures _ _ _ _

  pub shown-apply_size :
      (z : ℤ) (a : ℕ) (u : BorderHighlightUi B)
      → same K a BorderSlot.size ≡ false
      → K.shown (apply_size z a u).0.world ≡ K.shown u.world
  unfolding apply_size
  shown-apply_size (negsuc n) a u h = refl
  shown-apply_size (pos n) a u h = rw shown-safe_set (ground arith)

  back_size :
      (applied : Bool) (a : ℕ) (v prior : Bytes) (y : K.Shown)
      → (same K a BorderSlot.size ≡ true → applied ≡ K.writable)
      → (is_empty prior ≡ false → same K a BorderSlot.size ≡ true → K.means prior ≡ y)
      → (is_empty prior ≡ true → same K a BorderSlot.size ≡ true → K.means (codes "unset") ≡ y)
      → let captured = applied && not (is_empty prior) in
        written_if K applied a BorderSlot.size
          (if captured then (if captured then prior else []) else codes "unset")
          (written K a BorderSlot.size v y)
        ≡ y
  back_size applied a v prior y h k l = ground arith

  back-apply_size :
      (z : ℤ) (a : ℕ) (u : BorderHighlightUi B)
      → let r = apply_size z a u in
        written_if K r.1.0 a BorderSlot.size
          (if r.1.1.0 then r.1.1.1 else codes "unset")
          (K.shown r.0.world)
        ≡ K.shown u.world
  unfolding apply_size
  back-apply_size (negsuc n) a u = refl
  back-apply_size (pos n) a u = rw shown-safe_set (
      back_size _ a (to_string n) _ _ (safe_set-writable a BorderSlot.size (to_string n) u)
        (means-read_slot a BorderSlot.size u.world) (means_unset a u.world))

  back-drawn :
      (a : ℕ) (active inactive v size : Bytes) (first second sized : Bool) (x y z : K.Shown)
      → (same K a active_color ≡ true → (first ≡ K.writable) × (K.means active ≡ x))
      → (same K a inactive_color ≡ true → (second ≡ K.writable) × (K.means inactive ≡ x))
      → y ≡ written K a inactive_color v (written K a active_color v x)
      → written_if K sized a BorderSlot.size size z ≡ y
      → (same K a BorderSlot.size ≡ false → z ≡ y)
      → written_if K sized a BorderSlot.size size (
          written_if K second a inactive_color inactive
            (written_if K first a active_color active z))
        ≡ x
  back-drawn a active inactive v size first second sized x y z h k e f g = ground arith

  pub unless_returned-world :
      (r : _) (b : Bool) (u : BorderHighlightUi B) → (unless_returned r b u).world ≡ u.world
  unfolding unless_returned
  unless_returned-world r true u = refl
  unless_returned-world r false u = warn_once-world r u

  pub unless_returned-captures :
      (r : _) (b : Bool) (u : BorderHighlightUi B) → (unless_returned r b u).captures ≡ u.captures
  unfolding unless_returned
  unless_returned-captures r true u = refl
  unless_returned-captures r false u = warn_once-captures r u

  pub elevate-captures :
      (ref : WindowRef) (u : BorderHighlightUi B) → (elevate ref u).captures ≡ u.captures
  unfolding elevate
  elevate-captures ref u = unless_returned-captures _ _ _

  pub shown-elevate :
      (ref : WindowRef) (u : BorderHighlightUi B) → K.shown (elevate ref u).world ≡ K.shown u.world
  unfolding elevate
  shown-elevate ref u = ap K.shown (unless_returned-world _ _ _) ∙ K.shown-visible u.world ref

  first_capture :
      (cs : List WindowCapture) (cap : WindowCapture) (x y : K.Shown)
      → cs ≡ []
      → back K cap y ≡ x
      → Marked K (cap ∷ [])
      → (undone K (cs ++ cap ∷ []) y ≡ x) × Marked K (cs ++ cap ∷ [])
  unfolding undone
  first_capture cs cap x y e h m = rw e (h, m)

  -- After both colours were read.
  pub draw-Holds :
      (ref : WindowRef) (active inactive : Bytes) (x : K.Shown) (u : BorderHighlightUi B)
      → u.captures ≡ []
      → K.shown u.world ≡ x
      → (same K ref.address active_color ≡ true → K.means active ≡ x)
      → (same K ref.address inactive_color ≡ true → K.means inactive ≡ x)
      → Holds K x (draw ref active inactive u)
  unfolding draw back
  draw-Holds ref active inactive x u none_yet e h k =
      let a = ref.address in
      let (y, first) = safe_set a active_color u.color u in
      let (z, second) = safe_set a inactive_color u.color y in
      let writes = safe_set-writable a active_color u.color u in
      let writes_inactive = safe_set-writable a inactive_color u.color y in
      first_capture (apply_size z.size a z).0.captures _ x _
        (apply_size-captures z.size a z
          ∙ safe_set-twice-captures K a active_color inactive_color u.color u.color u
          ∙ none_yet)
        (back-drawn a active inactive u.color _ first second _ x (K.shown z.world) _
          (λ s. (writes s, h s)) (λ s. (writes_inactive s, k s))
          (shown-safe_set-twice K a active_color inactive_color u.color u.color u
            ∙ ap (λ y. written K a inactive_color u.color (written K a active_color u.color y)) e)
          (back-apply_size z.size a z) (shown-apply_size z.size a z))
        (writes, writes_inactive)
