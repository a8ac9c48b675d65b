-- ===== src/Border/Defs/Slots.antt =====
-- `BorderHighlightUI` over the ports that it is given, and the writing and restoring of single slots.
-- What the ports do is a change of one world; a call that throws is caught where the source catches it.
use Prim.Native.String.{String}
use mru_switcher.Prelude.{
  ℕ, zero, suc, ◌/◌, Bool, true, false, List, [], ◌∷◌, ◌++◌, Option, none, some, if◌then◌else◌,
  Bytes, codes, ℤ, pos, negsuc,
}
use mru_switcher.Window.{WindowRef}
use mru_switcher.Snapshot.{Snapshot}
use mru_switcher.Ports.{UiEndReason}
use mru_switcher.Config.{BorderStyle}
use mru_switcher.Border.Capture.{
  BorderSlot, active_color, inactive_color, alpha, alpha_inactive, normalize_capture,
}

-- What a call of a port comes to: it says that it was done, that it was not, or it throws.
pub data Outcome : Type 0 where
  done refused threw : Outcome

abbrev pub is_done : Outcome → Bool
is_done Outcome.done = true
is_done Outcome.refused = false
is_done Outcome.threw = false

-- The properties of the windows (`get` is `none` where it throws), the navigator and the pulse timer.
-- `begin` is not guarded in the source, and does not throw here. A `cancel` that throws is swallowed.
-- `ensure_visible` and `finish` say whether they returned, and did not throw. The validator is always given.
pub record BorderPorts : Type 1 where
  pub World : Type 0
  pub is_valid : World → WindowRef → Bool
  pub get : World → ℕ → BorderSlot → Option Bytes
  pub set : World → ℕ → BorderSlot → Bytes → World × Outcome
  pub begin : World → World
  pub ensure_visible : World → WindowRef → World × Bool
  pub finish : World → UiEndReason → World × Bool
  pub schedule : World → ℤ → World × Outcome
  pub cancel : World → World
  pub unit_double : Bytes → Bool

-- `value` is empty where the slot was not read.
pub record SlotCapture : Type 0 where
  pub value : Bytes
  pub applied : Bool

pub record WindowCapture : Type 0 where
  pub ref : WindowRef
  pub active : SlotCapture
  pub inactive : SlotCapture
  pub alpha : SlotCapture
  pub alpha_inactive : SlotCapture
  pub size_applied : Bool
  pub size_captured : Bool
  pub size_value : Bytes

abbrev pub no_slot : SlotCapture
no_slot = record { value = []; applied = false }

-- The strength of the dimming is a double: whether it is at least 1, and the text that is written.
pub record BorderHighlightUi (B : BorderPorts) : Type 0 where
  pub world : B.World
  pub style : BorderStyle
  pub color : Bytes
  pub size : ℤ
  pub half_cycle_ms : ℤ
  pub dim_off : Bool
  pub dim_value : Bytes
  pub warned : Bool
  pub warnings : List String
  pub degraded : Bool
  pub snapshot : Option Snapshot
  pub captures : List WindowCapture
  pub pulse_dark : Bool

abbrev pub is_pulse : BorderStyle → Bool
is_pulse BorderStyle.pulse = true
is_pulse BorderStyle.solid = false
is_pulse BorderStyle.dim = false

abbrev pub is_dim : BorderStyle → Bool
is_dim BorderStyle.dim = true
is_dim BorderStyle.solid = false
is_dim BorderStyle.pulse = false

-- Empty where the read failed or what it gave cannot be written.
unfoldable pub read_slot : (B : BorderPorts) → ℕ → BorderSlot → B.World → Bytes
read_slot B address slot w = elim (B.get w address slot) [
  | none ↦ []
  | some raw ↦ normalize_capture B.unit_double raw slot
]

-- `/ 2` of an int.
abbrev pub half : ℤ → ℤ
half (pos n) = pos (n / 2)
half (negsuc zero) = pos 0
half (negsuc (suc n)) = negsuc (n / 2)

-- The constructor, with the world that its ports act on.
abbrev pub new_border_ui :
    {B : BorderPorts} → BorderStyle → Bytes → ℤ → ℤ → Bool → Bytes → B.World → BorderHighlightUi B
new_border_ui style color size pulse_period_ms dim_off dim_value world = record {
  world = world;
  style = style;
  color = color;
  size = size;
  half_cycle_ms = half pulse_period_ms;
  dim_off = dim_off;
  dim_value = dim_value;
  warned = false;
  warnings = [];
  degraded = false;
  snapshot = none;
  captures = [];
  pulse_dark = false;
}

module _ {B : BorderPorts} where
  unfoldable pub warn_once : String → BorderHighlightUi B → BorderHighlightUi B
  warn_once reason u =
      if u.warned then u else record u { warned = true; warnings = u.warnings ++ reason ∷ [] }

  -- After a call: nothing where it was done, and a warning where it was not or it threw.
  unfoldable pub reported : String → String → Outcome → BorderHighlightUi B → BorderHighlightUi B
  unfolding warn_once
  reported failed thrown Outcome.done u = u
  reported failed thrown Outcome.refused u = warn_once failed u
  reported failed thrown Outcome.threw u = warn_once thrown u

  unfoldable pub unless_returned : String → Bool → BorderHighlightUi B → BorderHighlightUi B
  unfolding warn_once
  unless_returned thrown true u = u
  unless_returned thrown false u = warn_once thrown u

  unfoldable pub safe_set :
      ℕ → BorderSlot → Bytes → BorderHighlightUi B → BorderHighlightUi B × Bool
  unfolding reported
  safe_set address slot value u =
      let (w, outcome) = B.set u.world address slot value in
      (
        reported "border property write failed" "border property write threw" outcome
            (record u { world = w }),
        is_done outcome,
      )

  -- `if (applied) safe_set(…)`
  unfoldable pub restore_slot :
      Bool → ℕ → BorderSlot → Bytes → BorderHighlightUi B → BorderHighlightUi B
  restore_slot applied address slot value u =
      if applied then (safe_set address slot value u).0 else u

  unfoldable pub restore_window : WindowCapture → BorderHighlightUi B → BorderHighlightUi B
  restore_window cap u =
      let a = cap.ref.address in
      restore_slot cap.size_applied a BorderSlot.size
        (if cap.size_captured then cap.size_value else codes "unset")
        (restore_slot cap.alpha_inactive.applied a alpha_inactive cap.alpha_inactive.value (
          restore_slot cap.alpha.applied a alpha cap.alpha.value (
            restore_slot cap.inactive.applied a inactive_color cap.inactive.value
              (restore_slot cap.active.applied a active_color cap.active.value u))))

  unfoldable pub restore_windows : List WindowCapture → BorderHighlightUi B → BorderHighlightUi B
  restore_windows [] u = u
  restore_windows (cap ∷ caps) u = restore_windows caps (restore_window cap u)

  unfoldable pub cancel_pulse : BorderHighlightUi B → BorderHighlightUi B
  cancel_pulse u = record u { world = B.cancel u.world; pulse_dark = false }

  unfoldable pub restore_all : BorderHighlightUi B → BorderHighlightUi B
  restore_all u = record (restore_windows u.captures (cancel_pulse u)) { captures = [] }
