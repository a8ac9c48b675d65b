-- ===== src/OverlaySocket.antt =====
-- src/plugin/hypr/hyprland_overlay_socket.cpp: the watches of the compositor's event loop on the sockets
-- of the overlay's server. What the host answers is an argument.
pub mod Open
use mru_switcher.Prelude.{
  ℕ, Bool, true, false, not, ◌&&◌, ◌||◌, List, [], ◌∷◌, Option, none, some, if◌then◌else◌, is_empty,
  Bytes, bytes_eq,
}
use mru_switcher.OverlayServer
use mru_switcher.OverlayServer.{
  OverlaySocketServer, StartAnswers, RecvEnd, start, close_client, poll_accept, poll_client,
  SendAnswer, send_line,
}

-- `handled` says that there is a handler of commands; a watch is there, or not.
pub record HyprlandOverlaySocket : Type 0 where
  pub server : OverlaySocketServer
  pub handled : Bool
  pub listen_source : Bool
  pub client_source : Bool

-- Whether there is a compositor, and whether its event loop adds a watch.
pub record Loop : Type 0 where
  pub compositor : Bool
  pub adds : Bool

abbrev pub is_some {ℓ} : {A : Type ℓ} → Option A → Bool
is_some none = false
is_some (some a) = true

abbrev pub started : OverlaySocketServer → Bool
started s = is_some s.listen_fd

unfoldable pub watch_listener : Loop → HyprlandOverlaySocket → HyprlandOverlaySocket
watch_listener host v =
    if v.listen_source || not (started v.server) || not host.compositor
    then v
    else record v { listen_source = host.adds }

unfoldable pub unwatch_listener : HyprlandOverlaySocket → HyprlandOverlaySocket
unwatch_listener v = record v { listen_source = false }

unfoldable pub unwatch_client : HyprlandOverlaySocket → HyprlandOverlaySocket
unwatch_client v = record v { client_source = false }

unfoldable pub drop_client : HyprlandOverlaySocket → HyprlandOverlaySocket
unfolding close_client
drop_client v = record v { server = close_client v.server }

unfoldable pub watch_client : Loop → HyprlandOverlaySocket → HyprlandOverlaySocket
unfolding drop_client unwatch_client
watch_client host v =
    let w = unwatch_client v in
    if not host.compositor
    then drop_client w
    else if host.adds
    then record w { client_source = true }
    else drop_client w

unfoldable pub stop : HyprlandOverlaySocket → HyprlandOverlaySocket
unfolding unwatch_client unwatch_listener OverlayServer.stop
stop v =
    let w = unwatch_listener (unwatch_client v) in
    record w { server = OverlayServer.stop w.server; handled = false }

-- Once the server has started.
unfoldable pub watch_started : Loop → HyprlandOverlaySocket → HyprlandOverlaySocket × Bool
unfolding watch_listener OverlayServer.stop
watch_started host v =
    let w = watch_listener host v in
    if not w.listen_source
    then (record w { server = OverlayServer.stop w.server }, false)
    else (w, true)

-- The server starts, with a sink for its messages, and is watched.
unfoldable pub open_server :
    Bytes → StartAnswers → Loop → HyprlandOverlaySocket → HyprlandOverlaySocket × Bool
unfolding start watch_started
open_server path answers host w =
    let (server, listening) = start path answers (record w.server { logging = true }) in
    if not listening
    then (record w { server = server }, false)
    else watch_started host (record w { server = server; handled = true })

unfoldable pub ensure_started :
    Bytes → StartAnswers → Loop → HyprlandOverlaySocket → HyprlandOverlaySocket × Bool
unfolding stop open_server
ensure_started path answers host v =
    if is_empty path
    then (v, false)
    else if started v.server && bytes_eq v.server.path path
    then (record v { handled = true }, true)
    else open_server path answers host (stop v)

unfoldable pub on_listener_readable : List ℕ → Loop → HyprlandOverlaySocket → HyprlandOverlaySocket
unfolding poll_accept watch_client
on_listener_readable fds host v =
    let (server, accepted) = poll_accept fds v.server in
    elim accepted [
      | none ↦ record v { server = server }
      | some fd ↦ watch_client host (record v { server = server })
    ]

-- `hangup` says that the mask holds a hang-up or an error.
unfoldable pub listener_callback :
    Bool → List ℕ → Loop → HyprlandOverlaySocket → HyprlandOverlaySocket
unfolding unwatch_listener on_listener_readable OverlayServer.stop
listener_callback hangup fds host v =
    if hangup
    then (let w = unwatch_listener v in record w { server = OverlayServer.stop w.server })
    else on_listener_readable fds host v

unfoldable pub on_client_readable :
    List Bytes → RecvEnd → HyprlandOverlaySocket → HyprlandOverlaySocket
unfolding poll_client unwatch_client
on_client_readable chunks last v =
    let (server, there) = poll_client chunks last v.server in
    let w = record v { server = server } in if there then w else unwatch_client w

unfoldable pub client_callback :
    Bool → List Bytes → RecvEnd → HyprlandOverlaySocket → HyprlandOverlaySocket
unfolding unwatch_client drop_client on_client_readable
client_callback hangup chunks last v =
    if hangup then drop_client (unwatch_client v) else on_client_readable chunks last v

unfoldable pub send : Bytes → SendAnswer → HyprlandOverlaySocket → HyprlandOverlaySocket × Bool
unfolding send_line
send line answer v =
    let (server, went) = send_line line answer v.server in (record v { server = server }, went)
