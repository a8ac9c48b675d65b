-- ===== src/Border/Watched.antt =====
-- One property of one window, as it shows, and what the calls of the ports do to it.
use mru_switcher.Prelude.{
  ℕ, ◌≡◌, Bool, true, false, ◌&&◌, ◌==◌, if◌then◌else◌, is_empty, Bytes, codes, ℤ,
}
use mru_switcher.Window.{WindowRef}
use mru_switcher.Ports.{UiEndReason}
use mru_switcher.Border.Capture.{BorderSlot, active_color, inactive_color}
use mru_switcher.Border.Defs.{is_done, BorderPorts, read_slot}

abbrev pub slot_eq : BorderSlot → BorderSlot → Bool
slot_eq BorderSlot.active_color t = elim t [ active_color ↦ true | _ ↦ false ]
slot_eq BorderSlot.inactive_color t = elim t [ inactive_color ↦ true | _ ↦ false ]
slot_eq BorderSlot.size t = elim t [ BorderSlot.size ↦ true | _ ↦ false ]
slot_eq BorderSlot.alpha t = elim t [ BorderSlot.alpha ↦ true | _ ↦ false ]
slot_eq BorderSlot.alpha_inactive t = elim t [ BorderSlot.alpha_inactive ↦ true | _ ↦ false ]

-- The slot of the window at an address: `shown` is what it looks like, `means` what it looks like once
-- a text was written to it. A write to it is always done, or never; a text that was read from it and
-- can be written means what is shown; a size that cannot be read is an unset one. Nothing but a write
-- to it changes it.
pub record Watched (B : BorderPorts) (address : ℕ) (slot : BorderSlot) : Type 1 where
  pub Shown : Type 0
  pub shown : B.World → Shown
  pub means : Bytes → Shown
  pub writable : Bool
  pub set_done : (w : B.World) (v : Bytes) → is_done (B.set w address slot v).1 ≡ writable
  pub shown-set :
      (w : B.World) (a : ℕ) (s : BorderSlot) (v : Bytes)
      → shown (B.set w a s v).0
        ≡ (if (a == address && slot_eq s slot) && writable then means v else shown w)
  pub shown-read :
      (w : B.World)
      → is_empty (read_slot B address slot w) ≡ false
      → means (read_slot B address slot w) ≡ shown w
  pub shown-unset :
      (w : B.World)
      → slot ≡ BorderSlot.size
      → is_empty (read_slot B address slot w) ≡ true
      → means (codes "unset") ≡ shown w
  pub shown-begin : (w : B.World) → shown (B.begin w) ≡ shown w
  pub shown-visible : (w : B.World) (r : WindowRef) → shown (B.ensure_visible w r).0 ≡ shown w
  pub shown-finish : (w : B.World) (e : UiEndReason) → shown (B.finish w e).0 ≡ shown w
  pub shown-schedule : (w : B.World) (d : ℤ) → shown (B.schedule w d).0 ≡ shown w
  pub shown-cancel : (w : B.World) → shown (B.cancel w) ≡ shown w
