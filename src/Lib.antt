-- ===== src/Lib.antt =====
-- MRU window switcher for Hyprland: a plugin that switches between windows in the order in which
-- they were last used. A session is opened by the first `cycle`, which freezes a list of windows;
-- further commands move a selection in it; `apply` focuses the selected window, `cancel` does not.
--
-- Parts of the program and the files that model them:
--   Prelude     tests, lists, search in lists: what the parts share.
--   Window      include/mru/domain/window_ref.hpp, window_meta.hpp, focus_context.hpp, scope.hpp.
--   Scope       src/domain/scope_predicate.cpp: which windows a scope offers.
--   Selection   src/domain/selection.cpp: the selected index, with the wrap-around of size_t.
--   Snapshot    include/mru/domain/snapshot.hpp, src/domain/snapshot.cpp: the frozen list.
--   Scheduler   include/mru/domain/scheduler_port.hpp: timers, as operations and their laws.
--   Clock       src/domain/fake_clock.cpp: the simulated clock, an instance of the port.
--   Timers      src/plugin/hypr/hypr_scheduler.cpp: the event loop's timers, another instance.
--   History     src/domain/history_tracker.cpp: the order of use, with its debounced promotion.
--   Ports       include/mru/domain/window_source.hpp, focus_gateway.hpp, ui_port.hpp.
--   Session     src/domain/session_controller.cpp: the sessions. Defs and Apply hold the
--               operations, Step the events of the plugin's life; the others hold theorems.
--   Merge       src/plugin/mru_merge.cpp: the plugin's order, then the compositor's.
--   Registry    src/plugin/hypr/identity_registry.cpp: addresses and generations of windows.
--   Source      src/plugin/hypr/hypr_window_source.cpp and hypr_focus_gateway.cpp, an instance of the
--               ports: the compositor is a parameter, and the registry is part of the world.
--   Config      src/plugin/config_value.cpp: tokens and bounds of the configuration.
--   DispatchArgs  src/plugin/dispatch_args.cpp: the arguments of mru:cycle.
--   Sidecar     src/plugin/sidecar_config.cpp: the second configuration file laid over the first.
--   OverlayServer  src/plugin/overlay_socket_server.cpp: the peer's socket and its lines.
--   Plugin      src/plugin/plugin_lifecycle.cpp: loading and unloading, over all the parts above.
--   HostConfig  src/plugin/config_v2.cpp: the values registered with the host and read from it;
--               Calls are calls that may throw, Register is the registration.
--   PluginEntry  src/plugin/mru_plugin.cpp: PLUGIN_INIT and PLUGIN_EXIT, with the rest of
--               plugin_lifecycle.cpp and the reload of plugin_events.cpp.
--   System      the whole plugin: the calls of the host, in any order, on its state.
--   LuaBridge   src/plugin/plugin_lua_bridge.cpp: the dispatchers as functions of Lua.
--   PulseTimer  src/plugin/hypr/hyprland_pulse_timer.cpp: the timer of the pulse.
--   Events      src/plugin/plugin_events.cpp: what the plugin does on an announcement.
--   Border      src/plugin/border_highlight_ui.cpp: the highlight of the selected window. Color is
--               the colour of a pulse, Capture what is kept of a property, Defs the state and the
--               calls; Watched is one property of one window, and the others hold theorems on it.
--   PropIo      src/plugin/hypr/hyprctl_border_prop_io.cpp: border properties over the host's commands.
--   Protocol    src/plugin/overlay_protocol.cpp: the lines to and from an overlay.
--   SessionUi   src/plugin/session_ui.cpp and external_overlay_ui.cpp: one backend for each session.
--   Navigator   src/plugin/hypr/hypr_workspace_navigator.cpp: the workspace of a selected window.
--   Facade      src/plugin/plugin_overlay_wiring.cpp: the choice of the backend of a session.
--   OverlaySocket  src/plugin/hypr/hyprland_overlay_socket.cpp: the watches on the overlay's sockets.
--   Dispatch    src/plugin/plugin_dispatch.cpp, src/plugin/status_format.cpp and the handler of commands
--               in src/plugin/plugin_overlay_wiring.cpp and hypr/hyprland_overlay_socket.cpp: what
--               users and peers ask of the controller.
--   Tests       the theorems at concrete inputs.
--
-- The state of a class is a record; an operation takes the state and returns the new one. The
-- controller's record holds the history, which holds the scheduler's state, and the world behind the
-- ports, which is a parameter: the compositor may change it at any time (the event `changes`), and
-- during a focus call, in which it may also announce windows as focused. Calls of the user interface
-- and of the focus gateway are recorded, newest first. Where the source has a precondition (`at`),
-- the model returns an Option, which is `none` when it is broken.
--
-- Numbers are natural numbers; additions of a std::size_t, a std::uint64_t or a std::uint32_t wrap
-- in the model. Job ids are 64-bit counters, and a scheduler reuses one only after 2 ^ 64 - 1
-- others: the theorems on sequences of events assume that ids are left, one for each focus event
-- or apply and `burst` for each cancel. Every loop is structural recursion but one, the dispatch of the
-- overlay's lines, whose fuel is the length of the buffer: each turn takes a byte away. A number is
-- printed with at most twenty decimal digits, which is enough below 2 ^ 64, and an address with sixteen
-- hexadecimal ones.
--
-- The host (its values, its registrations, its Lua, its event loop) is a parameter or an argument;
-- an exception is a result, `threw`, and leaves what was written before it.
--
-- Not modelled: numbers with a fraction (the strength of the dimming), which are left out of the
-- configuration; exceptions of the standard library, such as a lack of memory; the destruction of
-- members that hold no state of their own; calls back into the overlay's server while it hands over a
-- line: the lines that it hands over are a list, which the controller's handler then works through.
pub mod Prelude
pub mod Window
pub mod Scope
pub mod Selection
pub mod Snapshot
pub mod Scheduler
pub mod System
pub mod Timers
pub mod History
pub mod HostConfig
pub mod Clock
pub mod Ports
pub mod Protocol
pub mod Navigator
pub mod SessionUi
pub mod OverlaySocket
pub mod Dispatch
pub mod PropIo
pub mod Facade
pub mod Session
pub mod Tests
pub mod LuaBridge
pub mod Merge
pub mod PulseTimer
pub mod Registry
pub mod Config
pub mod DispatchArgs
pub mod Source
pub mod Sidecar
pub mod OverlayServer
pub mod Plugin
pub mod PluginEntry
pub mod Events
pub mod Border
