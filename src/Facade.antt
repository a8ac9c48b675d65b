-- ===== src/Facade.antt =====
-- src/plugin/plugin_overlay_wiring.cpp: the backend that a session gets.
pub mod Listening
use Prim.Native.String.{String}
use mru_switcher.Prelude.{
  ℕ, ◌+◌, Bool, true, false, not, ◌||◌, Option, none, some, if◌then◌else◌, is_empty, codes,
}
use mru_switcher.Config.{
  PluginConfig, UiKind, null_ui, border_ui, external_ui, effective_ui_backend,
}
use mru_switcher.OverlayServer.{StartAnswers}
use mru_switcher.OverlaySocket.{HyprlandOverlaySocket, Loop, ensure_started, stop}

-- Of a border backend, whether it has the navigator that follows the selection.
pub data SessionBackend : Type 0 where
  border : Bool → SessionBackend
  overlay none_shown : SessionBackend

-- The part of the plugin's state that the choice reads and writes, with the static `warned` and how many
-- notifications there were.
pub record Facade : Type 0 where
  pub config : PluginConfig
  pub overlay_socket : Option HyprlandOverlaySocket
  pub warned : Bool
  pub notifications : ℕ

abbrev pub is_external : UiKind → Bool
is_external external_ui = true
is_external border_ui = false
is_external null_ui = false

-- Once there is a socket.
unfoldable pub start_socket :
    StartAnswers → Loop → PluginConfig → HyprlandOverlaySocket → HyprlandOverlaySocket × Bool
unfolding effective_ui_backend ensure_started stop
start_socket answers host cfg v =
    if not (is_external (effective_ui_backend cfg)) || is_empty (codes cfg.external_socket)
    then (stop v, false)
    else ensure_started (codes cfg.external_socket) answers host v

unfoldable pub try_start_overlay_socket : StartAnswers → Loop → Facade → Facade × Bool
unfolding start_socket
try_start_overlay_socket answers host f = elim f.overlay_socket [
  | none ↦ (f, false)
  | some v ↦
      let (w, listens) = start_socket answers host f.config v in
      (record f { overlay_socket = some w }, listens)
]

-- What follows when neither backend was made.
unfoldable pub without_backend : Facade → Facade × SessionBackend
without_backend f = (
  if f.config.ui_external
      then (if f.warned then f else record f { warned = true; notifications = f.notifications + 1 })
      else f,
  none_shown,
)

unfoldable pub create_session_backend : StartAnswers → Loop → Facade → Facade × SessionBackend
unfolding effective_ui_backend try_start_overlay_socket without_backend
create_session_backend answers host f = elim (effective_ui_backend f.config) [
  | border_ui ↦ (f, border f.config.selection_follow_workspace)
  | external_ui ↦
      let (g, listens) = try_start_overlay_socket answers host f in
      if listens then (g, overlay) else without_backend g
  | null_ui ↦ without_backend f
]
