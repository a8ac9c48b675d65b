-- ===== src/Ports.antt =====
-- include/mru/domain/window_source.hpp, focus_gateway.hpp and ui_port.hpp: what the session
-- controller asks of the compositor, and what it tells the user interface.
use mru_switcher.Prelude.{ℕ, ◌≤◌, Bool, List, Option, length}
use mru_switcher.Window.{WindowRef, Scope}

pub data FocusResult : Type 0 where
  applied invalid_target failed : FocusResult

pub data UiEndReason : Type 0 where
  applied cancelled : UiEndReason

-- What a focus call comes to: its result, the world after it, and the windows that the compositor
-- announced as active while the call ran, in order. The plugin's listener hands each of these to
-- `on_focus` before the call returns.
pub record FocusOutcome (W : Type 0) : Type 0 where
  pub result : FocusResult
  pub world : W
  pub activated : List WindowRef

-- The window source and the focus gateway over a world of windows. `candidates` is given the
-- history's order, which the source reads, and may register windows that it sees. The history's
-- validator and the source's are one lookup, as the plugin builds them. One focus call announces
-- at most `burst` windows.
pub record Ports : Type 1 where
  pub World : Type 0
  pub candidates : List WindowRef → Scope → World → World × List WindowRef
  pub is_valid : World → WindowRef → Bool
  pub focused : World → Option WindowRef
  pub focus : WindowRef → World → FocusOutcome World
  pub burst : ℕ
  pub activated-le-burst : (r : WindowRef) (w : World) → length (focus r w).activated ≤ burst
