-- ===== src/Border/Dim.antt =====
-- The dimming of the ring in src/plugin/border_highlight_ui.cpp, and a watched property.
use mru_switcher.Prelude.{
  ℕ, ◌+◌, ◌≡◌, refl, sym, ap, ◌∙◌, ==_iff, Bool-cases, inl, inr, Bool, true, false, not, ◌||◌, List,
  [], ◌∷◌, ◌++◌, ◌==◌, if_cases, is_empty, is_empty-last, Bytes, arith,
}
use mru_switcher.Window.{WindowRef}
use mru_switcher.Border.Capture.{BorderSlot, active_color, inactive_color, alpha, alpha_inactive}
use mru_switcher.Border.Defs.{
  BorderPorts, BorderHighlightUi, WindowCapture, warn_once, safe_set, read_slot, draw, dim_slots,
  dim_window, dim_loop,
}
use mru_switcher.Border.Watched.{Watched}
use mru_switcher.Border.Undo.{
  same, written, written_if, back, undone, undone-append, warn_once-world, warn_once-captures,
}
use mru_switcher.Border.Held.{Holds, Marked, safe_set-twice-captures, shown-safe_set-twice}
use mru_switcher.Border.Draw.{safe_set-writable, means-read_slot, shown-apply_size}

-- A window of the list has the address.
abbrev pub has_address : ℕ → List WindowRef → Bool
has_address a [] = false
has_address a (r ∷ rs) = r.address == a || has_address a rs

-- No two windows of the list have one address.
abbrev pub Apart : List WindowRef → Type 0
Apart [] = Unit
Apart (r ∷ rs) = (has_address r.address rs ≡ false) × Apart rs

-- The slots that the dimming writes.
abbrev pub is_dimmed : BorderSlot → Bool
is_dimmed BorderSlot.alpha = true
is_dimmed BorderSlot.alpha_inactive = true
is_dimmed BorderSlot.active_color = false
is_dimmed BorderSlot.inactive_color = false
is_dimmed BorderSlot.size = false

has_address-other :
    (a b : ℕ) (refs : List WindowRef)
    → has_address a refs ≡ false
    → has_address b refs ≡ true
    → (a == b) ≡ false
has_address-other a b refs h k = elim (Bool-cases (a == b)) [
  | inr different ↦ different
  | inl e ↦
      let equal = (==_iff a b).0 e in
      absurd (ground (arith, sym h ∙ ap (λ c. has_address c refs) equal ∙ k))
]

module _ {B : BorderPorts} {a0 : ℕ} {s0 : BorderSlot} (K : Watched B a0 s0) where
  pub shown-draw :
      (ref : WindowRef) (active inactive : Bytes) (u : BorderHighlightUi B)
      → is_dimmed s0 ≡ true
      → K.shown (draw ref active inactive u).world ≡ K.shown u.world
  unfolding draw
  shown-draw ref active inactive u h =
      let a = ref.address in
      let (y, first) = safe_set a active_color u.color u in
      let (z, second) = safe_set a inactive_color u.color y in
      shown-apply_size K z.size a z (ground arith)
      ∙ shown-safe_set-twice K a active_color inactive_color u.color u.color u
      ∙ ground arith

  -- A window that is yet to be dimmed shows what it did.
  abbrev pub Undimmed : K.Shown → List WindowRef → BorderHighlightUi B → Type 0
  Undimmed x refs u = is_dimmed s0 ≡ true → has_address a0 refs ≡ true → K.shown u.world ≡ x

  back-dimmed :
      (a : ℕ) (before before_inactive v : Bytes) (first second : Bool) (caps : List WindowCapture)
      (x y z : K.Shown)
      → (same K a alpha ≡ true → (first ≡ K.writable) × (K.means before ≡ x))
      → (same K a alpha_inactive ≡ true → (second ≡ K.writable) × (K.means before_inactive ≡ x))
      → undone K caps y ≡ x
      → z ≡ written K a alpha_inactive v (written K a alpha v y)
      → written_if K second a alpha_inactive before_inactive
          (written_if K first a alpha before (undone K caps z))
        ≡ x
  back-dimmed a before before_inactive v first second caps x y z h k e f = ground arith

  -- A capture that is not the first.
  next_capture :
      (cs ds : List WindowCapture) (cap : WindowCapture) (x y : K.Shown)
      → ds ≡ cs
      → is_empty cs ≡ false
      → Marked K cs
      → back K cap (undone K cs y) ≡ x
      → (undone K (ds ++ cap ∷ []) y ≡ x) × Marked K (ds ++ cap ∷ [])
  unfolding undone
  next_capture [] ds cap x y d n m e = cc
  next_capture (c ∷ cs) ds cap x y d n m e = rw d (undone-append K (c ∷ cs) (cap ∷ []) y ∙ e, m)

  dim_slots-Holds :
      (ref : WindowRef) (before before_inactive : Bytes) (x : K.Shown) (u : BorderHighlightUi B)
      → (same K ref.address alpha ≡ true → K.means before ≡ x)
      → (same K ref.address alpha_inactive ≡ true → K.means before_inactive ≡ x)
      → is_empty u.captures ≡ false
      → Holds K x u
      → Holds K x (dim_slots ref before before_inactive u)
  unfolding dim_slots back
  dim_slots-Holds ref before before_inactive x u h k n (undo, marked) =
      let a = ref.address in
      let d = u.dim_value in
      let (y, first) = safe_set a alpha d u in
      let same_captures = safe_set-twice-captures K a alpha alpha_inactive d d u in
      next_capture u.captures _ _ x _ same_captures n marked (
        back-dimmed a before before_inactive d _ _ u.captures x (K.shown u.world) _
          (λ s. (safe_set-writable K a alpha d u s, h s))
          (λ s. (safe_set-writable K a alpha_inactive d y s, k s)) undo
          (shown-safe_set-twice K a alpha alpha_inactive d d u))

  -- Of a window in a loop over the ring: `x` is what the property showed before.
  abbrev pub Dimming : K.Shown → List WindowRef → BorderHighlightUi B → Type 0
  Dimming x refs u = Holds K x u × (is_empty u.captures ≡ false) × Undimmed x refs u

  dim_slots-some :
      (ref : WindowRef) (before before_inactive : Bytes) (u : BorderHighlightUi B)
      → is_empty (dim_slots ref before before_inactive u).captures ≡ false
  unfolding dim_slots
  dim_slots-some ref before before_inactive u = is_empty-last _ _

  -- The other windows of the ring still show what they did.
  dim_slots-Undimmed :
      (ref : WindowRef) (refs : List WindowRef) (before before_inactive : Bytes) (x : K.Shown)
      (u : BorderHighlightUi B)
      → Apart (ref ∷ refs)
      → Undimmed x (ref ∷ refs) u
      → Undimmed x refs (dim_slots ref before before_inactive u)
  unfolding dim_slots
  dim_slots-Undimmed ref refs before before_inactive x u apart h d m =
      let elsewhere = has_address-other ref.address a0 refs apart.0 m in
      shown-safe_set-twice K ref.address alpha alpha_inactive u.dim_value u.dim_value u
      ∙ ground (arith, elsewhere, h d (ground arith))

  warn_once-Dimming :
      (r : _) (refs : List WindowRef) (x : K.Shown) (u : BorderHighlightUi B)
      → Dimming x refs u
      → Dimming x refs (warn_once r u)
  warn_once-Dimming r refs x u h = rw (warn_once-world, warn_once-captures) h

  -- What a slot that the dimming writes shows before it does.
  means-before :
      (ref : WindowRef) (refs : List WindowRef) (s : BorderSlot) (x : K.Shown)
      (u : BorderHighlightUi B)
      → is_dimmed s ≡ true
      → is_empty (read_slot B ref.address s u.world) ≡ false
      → Undimmed x (ref ∷ refs) u
      → same K ref.address s ≡ true
      → K.means (read_slot B ref.address s u.world) ≡ x
  means-before ref refs s x u d e h m =
      means-read_slot K ref.address s u.world e m ∙ h (ground arith) (ground arith)

  skip-Dimming :
      (ref : WindowRef) (refs : List WindowRef) (x : K.Shown) (u : BorderHighlightUi B)
      → Dimming x (ref ∷ refs) u
      → Dimming x refs u
  skip-Dimming ref refs x u (holds, n, undimmed) = (holds, n, λ d m. undimmed d (ground arith))

  dim_window-Dimming :
      (ref : WindowRef) (refs : List WindowRef) (x : K.Shown) (u : BorderHighlightUi B)
      → Apart (ref ∷ refs)
      → Dimming x (ref ∷ refs) u
      → Dimming x refs (dim_window ref u)
  unfolding dim_window
  dim_window-Dimming ref refs x u apart (holds, n, undimmed) =
      let before = read_slot B ref.address alpha u.world in
      let before_inactive = read_slot B ref.address alpha_inactive u.world in
      let skipped = skip-Dimming ref refs x u (holds, n, undimmed) in
      if_cases (Dimming x refs) (not (B.is_valid u.world ref)) (λ invalid. skipped)
        (λ valid.
          if_cases (Dimming x refs) (is_empty before || is_empty before_inactive)
            (λ unread.
              warn_once-Dimming "alpha read failed for a ring window; skipping its dim" refs x u
                skipped)
            (λ were_read. (
              dim_slots-Holds ref before before_inactive x u
                  (means-before ref refs alpha x u refl (ground arith) undimmed)
                  (means-before ref refs alpha_inactive x u refl (ground arith) undimmed) n holds,
              dim_slots-some ref before before_inactive u,
              dim_slots-Undimmed ref refs before before_inactive x u apart undimmed,
            )))

  pub dim_loop-Holds :
      (selected i : ℕ) (refs : List WindowRef) (x : K.Shown) (u : BorderHighlightUi B)
      → Apart refs
      → Dimming x refs u
      → Holds K x (dim_loop selected i refs u)
  unfolding dim_loop
  dim_loop-Holds selected i [] x u apart h = h.0
  dim_loop-Holds selected i (ref ∷ refs) x u apart h =
      dim_loop-Holds selected (i + 1) refs x _ apart.1 (
        if_cases (Dimming x refs) (i == selected) (λ s. skip-Dimming ref refs x u h)
          (λ s. dim_window-Dimming ref refs x u apart h))
