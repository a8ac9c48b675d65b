-- ===== src/OverlaySocket/Open.antt =====
-- `ensure_started` of src/plugin/hypr/hyprland_overlay_socket.cpp: the socket and its watch.
use mru_switcher.Prelude.{
  ◌≡◌, refl, ◌∙◌, Bool, true, false, not, ◌&&◌, [], ◌∷◌, none, ==_iff, if◌then◌else◌, if_cases,
  is_empty, Bytes, bytes_eq, arith,
}
use mru_switcher.OverlayServer
use mru_switcher.OverlayServer.{OverlaySocketServer, StartAnswers, start, close_client}
use mru_switcher.OverlaySocket.{
  HyprlandOverlaySocket, Loop, started, watch_listener, watch_started, open_server,
  unwatch_listener, unwatch_client, stop, ensure_started,
}

-- The listener is watched where the server listens.
abbrev pub Paired : HyprlandOverlaySocket → Type 0
Paired v = v.listen_source ≡ started v.server

stopped : (s : OverlaySocketServer) → (OverlayServer.stop s).listen_fd ≡ none
unfolding OverlayServer.stop
stopped s = refl

start_lem :
    (path : Bytes) (answers : StartAnswers) (s : OverlaySocketServer)
    → s.listen_fd ≡ none
    → let r = start path answers s in (started r.0 ≡ r.1) × (r.1 ≡ true → r.0.path ≡ path)
unfolding start
start_lem path answers s e = ground arith

bytes_eq→eq : (s t : Bytes) → bytes_eq s t ≡ true → s ≡ t
bytes_eq→eq [] [] h = refl
bytes_eq→eq [] (d ∷ t) h = cc
bytes_eq→eq (c ∷ s) [] h = cc
bytes_eq→eq (c ∷ s) (d ∷ t) h = ground (arith, bytes_eq→eq s t, ==_iff c d)

-- A choice of three, the first of which is not taken.
choice {ℓ κ} :
    {X : Type ℓ} (P : X → Type κ) (b c : Bool) (x y z : X)
    → b ≡ false
    → (c ≡ true → P y)
    → (c ≡ false → P z)
    → P (if b then x else if c then y else z)
choice P true c x y z e f g = cc
choice P false true x y z e f g = f refl
choice P false false x y z e f g = g refl

-- The listener is watched where the answer is yes, and the server listens, on the path and with a
-- handler; where it is no, neither.
unfoldable pub Ensured : Bytes → HyprlandOverlaySocket × Bool → Type 0
Ensured path (v, answer) =
    (v.listen_source ≡ answer)
    × (started v.server ≡ answer)
    × (answer ≡ true → (v.server.path ≡ path) × (v.handled ≡ true))

watch_started-Ensured :
    (path : Bytes) (host : Loop) (v : HyprlandOverlaySocket)
    → v.listen_source ≡ false
    → started v.server ≡ true
    → v.server.path ≡ path
    → v.handled ≡ true
    → Ensured path (watch_started host v)
unfolding Ensured watch_started watch_listener OverlayServer.stop
watch_started-Ensured path host v unwatched listens at_path handled = ground arith

stop-Paired :
    (v : HyprlandOverlaySocket)
    → ((stop v).listen_source ≡ false) × ((stop v).server.listen_fd ≡ none)
unfolding stop unwatch_listener unwatch_client OverlayServer.stop
stop-Paired v = (refl, refl)

open_server-Ensured :
    (path : Bytes) (answers : StartAnswers) (host : Loop) (w : HyprlandOverlaySocket)
    → w.listen_source ≡ false
    → w.server.listen_fd ≡ none
    → Ensured path (open_server path answers host w)
unfolding Ensured open_server
open_server-Ensured path answers host w unwatched closed =
    let (listens, at_path) = start_lem path answers (record w.server { logging = true }) closed in
    let (server, listening) = start path answers (record w.server { logging = true }) in
    if_cases (Ensured path) (not listening)
      (λ failed. let off = listens ∙ ground (arith, failed) in (unwatched, off, λ yes. cc))
      (λ works.
        watch_started-Ensured path host (record w { server = server; handled = true }) unwatched
          (listens ∙ ground arith) (at_path (ground arith)) refl)

kept-Ensured :
    (path : Bytes) (v : HyprlandOverlaySocket)
    → v.listen_source ≡ started v.server
    → (started v.server && bytes_eq v.server.path path) ≡ true
    → Ensured path (record v { handled = true }, true)
unfolding Ensured
kept-Ensured path v paired same = (
  paired ∙ ground (arith, same),
  ground (arith, same),
  λ _. (bytes_eq→eq v.server.path path (ground (arith, same)), refl),
)

-- With a path, and the watch and the socket there together or not at all: when `ensure_started` answers
-- yes the server listens on the path, is watched and has a handler, and when it answers no it neither
-- listens nor is watched.
pub ensure_started-Ensured :
    (path : Bytes) (answers : StartAnswers) (host : Loop) (v : HyprlandOverlaySocket)
    → is_empty path ≡ false
    → v.listen_source ≡ started v.server
    → Ensured path (ensure_started path answers host v)
unfolding ensure_started
ensure_started-Ensured path answers host v some_path paired =
    let (unwatched, closed) = stop-Paired v in
    choice (Ensured path) (is_empty path) (started v.server && bytes_eq v.server.path path)
      (v, false) (record v { handled = true }, true) (open_server path answers host (stop v))
      some_path (kept-Ensured path v paired)
      (λ _. open_server-Ensured path answers host (stop v) unwatched closed)
