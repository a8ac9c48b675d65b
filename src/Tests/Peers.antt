-- ===== src/Tests/Peers.antt =====
-- The theorems on the overlay's commands and socket, the backends, the workspaces, the second
-- configuration file and the clock at concrete inputs.
use Prim.Native.String.{String}
use mru_switcher.Prelude.{
  ℕ, ◌≡◌, refl, true, false, List, [], ◌∷◌, ◌++◌, Option, none, some, ◌==◌, leb, if◌then◌else◌,
  Bytes, codes, ℤ, pos, arith,
}
use mru_switcher.Ports.{UiEndReason}
use mru_switcher.Clock
use mru_switcher.Clock.Port.{clock_port}
use mru_switcher.History
use mru_switcher.History.{HistoryTracker, promote}
use mru_switcher.History.Debounce.{elapse, elapse-on_focus}
use mru_switcher.Session.Defs.{SessionController}
use mru_switcher.Session.Step.{run}
use mru_switcher.Session.Invariant.{IsValid}
use mru_switcher.Protocol.Select.{select_line}
use mru_switcher.Dispatch.{format_status}
use mru_switcher.Dispatch.Peer.{events_of, on_lines, on_lines-IsValid}
use mru_switcher.OverlayServer.{OverlaySocketServer, StartAnswers, find_newline, dispatch_loop}
use mru_switcher.OverlayServer.Fuel.{dispatch_loop-ends}
use mru_switcher.OverlaySocket.{HyprlandOverlaySocket}
use mru_switcher.Config.{default_plugin_config, effective_ui_backend}
use mru_switcher.Facade.{Facade, create_session_backend}
use mru_switcher.Facade.Listening.{is_overlay, create_session_backend-Ensured}
use mru_switcher.OverlaySocket.Open.{Ensured}
use mru_switcher.SessionUi
use mru_switcher.SessionUi.{Backends, SessionUiBackendProxy}
use mru_switcher.SessionUi.Frozen.{reloaded, selected, happenings, on_session_end-happenings}
use mru_switcher.Navigator.{Screens, begin, finish}
use mru_switcher.Navigator.Restore.{selections, finish-selections}
use mru_switcher.Sidecar.Parse.{parse, no_overrides}
use mru_switcher.Sidecar.Keys.{last_values, complaints}
use mru_switcher.Sidecar.Lines.{render, parse-render}
use mru_switcher.Tests.{
  term, mail, web, desk, tracker, browsing, browsing-IsValid, capacity-browsing, shown_windows,
}

abbrev peer_lines : List Bytes
peer_lines = select_line 2 ∷ codes "{}" ∷ codes "{\"v\":1,\"type\":\"apply\"}" ∷ []

on_lines-IsValid_example :
    (on_lines peer_lines browsing ≡ run (events_of peer_lines) browsing)
    × ((d : SessionController clock_port desk) × (on_lines peer_lines browsing ≡ some d)
        × IsValid d)
on_lines-IsValid_example =
    on_lines-IsValid peer_lines browsing browsing-IsValid (omega (arith, capacity-browsing))

status_text :
    format_status true 1 3 "global" 7 none
    ≡ codes "active=true index=1 size=3 scope=global session=7 last_end=none"
unfolding format_status
status_text = refl

abbrev closed_server : OverlaySocketServer
closed_server = record {
  listen_fd = none;
  client_fd = none;
  path = [];
  handled = false;
  logging = false;
  recv_buf = codes "a\nb\nc";
  dropped_lines = 0;
  lines = [];
  logs = 0;
  closed = [];
}

abbrev unopened : HyprlandOverlaySocket
unopened = record {
  server = closed_server;
  handled = false;
  listen_source = false;
  client_source = false;
}

abbrev with_overlay : Facade
with_overlay = record {
  config = record default_plugin_config {
    ui_border = false;
    ui_external = true;
    external_socket = "/s";
  };
  overlay_socket = some unopened;
  warned = false;
  notifications = 0;
}

abbrev opens : StartAnswers
opens = record { socket = some 4; bound = true; mode_set = true; listening = true }

create_session_backend-Ensured_example :
    let r = create_session_backend opens (record { compositor = true; adds = true }) with_overlay in
    (w : HyprlandOverlaySocket) × (r.0.overlay_socket ≡ some w)
    × Ensured (codes "/s") (w, is_overlay r.1)
unfolding effective_ui_backend
create_session_backend-Ensured_example =
    create_session_backend-Ensured opens (record { compositor = true; adds = true }) with_overlay
      unopened refl refl refl refl

dispatch_loop-ends_example :
    (find_newline (dispatch_loop 5 closed_server).recv_buf ≡ none)
    × (dispatch_loop 6 closed_server ≡ dispatch_loop 5 closed_server)
dispatch_loop-ends_example = dispatch_loop-ends 5 closed_server (omega arith)

-- Backends that note what they are told, after the configuration that they were made of.
abbrev notes : Backends
notes = record {
  Config = ℕ;
  Backend = List ℕ;
  make_backend = λ cfg. some (cfg ∷ []);
  on_session_start = λ s i b. b ++ i ∷ [];
  on_selection_changed = λ i b. b ++ i ∷ [];
  on_session_end = λ reason b. b ++ 99 ∷ [];
}

abbrev proxy : SessionUiBackendProxy notes
proxy = record { config = 5; active = none; dropped = [] }

on_session_end-happenings_example :
    let q = SessionUi.on_session_end UiEndReason.applied (
      happenings
        (reloaded 6 ∷ selected 2 ∷ [])
        (SessionUi.on_session_start shown_windows 1 proxy)) in
    (q.active ≡ none) × (q.dropped ≡ (5 ∷ 1 ∷ 2 ∷ 99 ∷ []) ∷ [])
on_session_end-happenings_example =
    on_session_end-happenings shown_windows 1 (reloaded 6 ∷ selected 2 ∷ []) UiEndReason.applied
      proxy (5 ∷ []) refl

-- One monitor for each window, and the window's address is its workspace.
abbrev monitors : Screens
monitors = record {
  World = ℕ → Option ℤ;
  resolve = λ w ref. some ref.address;
  workspace = λ w a. some (pos a);
  monitor = λ w a. some (if leb a 10 then 0 else 1);
  active = λ w m. w m;
  change = λ m ws w m'. if m == m' then some ws else w m';
}

finish-selections_example :
    (finish {S = monitors} UiEndReason.cancelled (
        selections
          (term ∷ mail ∷ web ∷ [])
          (begin (record { world = λ m. some (pos 4); touches = [] })))).world
      1
    ≡ some (pos 4)
finish-selections_example =
    finish-selections monitors (λ m ws w m'. refl) 1 4 (term ∷ mail ∷ web ∷ [])
      (record { world = λ m. some (pos 4); touches = [] }) refl

abbrev assignments : List (String × String)
assignments = ("ui", "border") ∷ ("wrap", "true") ∷ ("", "1") ∷ ("ui", "null") ∷ ("uj", "2") ∷ []

parse-render_example :
    ((parse (render assignments)).overrides ≡ last_values no_overrides assignments)
    × ((parse (render assignments)).warnings ≡ complaints assignments)
parse-render_example =
    parse-render assignments
      ((refl, refl), ((refl, refl), ((refl, refl), ((refl, refl), ((refl, refl), tt)))))

overrides_read :
    (parse "# a\nui = border ; b\r\n border_color=0xff;\nwrap\nx=1").overrides.ui ≡ some "border"
unfolding parse
overrides_read = refl

warnings_read :
    (parse "# a\nui = border ; b\r\n border_color=0xff;\nwrap\nx=1").warnings
    ≡ "mru-switcher sidecar: ignoring malformed line (no '='): wrap"
      ∷ "mru-switcher sidecar: ignoring unknown key 'x'" ∷ []
unfolding parse
warnings_read = refl

-- The mail window waits for its promotion when the web window is focused.
abbrev replaced : HistoryTracker clock_port
replaced = History.on_focus clock_port mail tracker

elapse-on_focus_example :
    (elapse (λ r. true) 150 (History.on_focus clock_port web replaced)).order
    ≡ promote web replaced.order
unfolding History.on_focus History.cancel_pending Clock.cancel Clock.schedule_after History.seed
    History.init
elapse-on_focus_example =
    elapse-on_focus (λ r. true) 150 web replaced refl refl (omega arith) (omega arith)
