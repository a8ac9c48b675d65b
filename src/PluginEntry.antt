-- ===== src/PluginEntry.antt =====
-- src/plugin/mru_plugin.cpp and mru_plugin.hpp, and what plugin_lifecycle.cpp does around the
-- controller: the plugin from PLUGIN_INIT to PLUGIN_EXIT. Calls of the host
-- that may throw are answers.
mod Sinks
unfoldable pub use Sinks.*
pub mod TornDown
pub mod Registers
pub mod Init
pub mod Listening
pub mod Loaded
pub mod Reload
pub mod ReloadKeeps
use Prim.Native.String.{String, ◌++◌ as str_append}
use text.Mathlib.Text.{◌==◌ as str_eq}
use mru_switcher.Prelude.{
  ℕ, Bool, true, false, List, [], ◌∷◌, ◌++◌, Option, none, some, if◌then◌else◌,
}
use mru_switcher.Scheduler.{SchedulerPort}
use mru_switcher.Config.{PluginConfig, default_plugin_config}
use mru_switcher.Sidecar.{apply_overlay}
use mru_switcher.Sidecar.Parse.{SidecarParse, load_default}
use mru_switcher.Source.{Desktop}
use mru_switcher.Source.Answer.{hypr_ports}
use mru_switcher.Session.Defs.{SessionController}
use mru_switcher.OverlayServer.{StartAnswers}
use mru_switcher.OverlaySocket.{HyprlandOverlaySocket, Loop}
use mru_switcher.Facade.{Facade, try_start_overlay_socket}
use mru_switcher.Plugin.{build_state, teardown_state}
use mru_switcher.Events.{on_reload}
use mru_switcher.HostConfig.{Host, Values, Notices, no_values, read_config}
use mru_switcher.HostConfig.Register.{register_all}
use mru_switcher.HostConfig.Calls.{
  Thrown, exception, unknown, Outcome, returned, threw, Call, pure, throw, modify, on_part, ◌>>=◌,
  ◌>>◌,
}

unfoldable pub hash_ok : Option String → Option String → Bool
hash_ok none c = false
hash_ok (some h) none = false
hash_ok (some h) (some c) = str_eq h c

-- An overlay socket that has just been made.
abbrev pub new_socket : HyprlandOverlaySocket
new_socket = record {
  server = record {
    listen_fd = none;
    client_fd = none;
    path = [];
    handled = false;
    logging = false;
    recv_buf = [];
    dropped_lines = 0;
    lines = [];
    logs = 0;
    closed = [];
  };
  handled = false;
  listen_source = false;
  client_source = false;
}

-- What `PLUGIN_INIT` returns to the host, if it returns: the description, or an empty one.
pub data Loading : Type 0 where
  described empty_description : Loading

abbrev pub events : List String
events =
    "window.open" ∷ "window.active" ∷ "window.close" ∷ "window.destroy" ∷ "config.reloaded" ∷ []

abbrev pub dispatcher_names : List String
dispatcher_names = "mru:cycle" ∷ "mru:apply" ∷ "mru:cancel" ∷ "mru:status" ∷ []

abbrev pub lua_names : List String
lua_names = "cycle" ∷ "apply" ∷ "cancel" ∷ "status" ∷ []

module _ (D : Desktop) (S : SchedulerPort) (H : Host) where
  -- `world` and `scheduler` are the compositor's while there is no controller; a controller has its own.
  pub record PluginState : Type 0 where
    pub phandle : Option ℕ
    pub host : H.State
    pub config_v2 : Values H
    pub facade : Facade
    pub controller : Option (SessionController S (hypr_ports D))
    pub world : D.windows.State
    pub scheduler : S.State
    pub listeners : List String
    pub dispatchers : List String
    pub lua_functions : List String
    pub notices : Notices
    pub load_sink : Sink
    pub reload_sink : Sink
    pub errors : List String

  -- What is outside of the plugin: the two hashes, the second configuration file and
  -- the environment that says where it lies, the socket, and the
  -- calls of the host that subscribe and register, by name.
  pub record Answers : Type 0 where
    pub hash : Option String
    pub client_hash : Option String
    pub file : String → Option String
    pub xdg_config_home : Option String
    pub home : Option String
    pub finite_double : String → Bool
    pub fresh : S.State
    pub socket : StartAnswers
    pub loop : Loop
    pub listen : String → Option Thrown
    pub add_dispatcher : String → Option Thrown
    pub add_lua_function : String → Bool

  abbrev pub parsed : Answers → SidecarParse
  unfolding load_default
  parsed a = load_default a.file a.xdg_config_home a.home

  unfoldable pub read_values : Call PluginState PluginConfig
  unfolding read_config
  read_values st =
      let (o, n) = read_config H st.host st.config_v2 st.notices in (o, record st { notices = n })

  abbrev pub set_config : PluginConfig → PluginState → PluginState
  set_config cfg st = record st { facade = record st.facade { config = cfg } }

  unfoldable pub overlay_load : Answers → PluginState → PluginState
  unfolding apply_sidecar_overlay
  overlay_load a st =
      let (cfg, k) =
        apply_sidecar_overlay a.finite_double (parsed a) st.facade.config st.load_sink in
      set_config cfg (record st { load_sink = k })

  unfoldable pub start_overlay : Answers → PluginState → PluginState
  unfolding try_start_overlay_socket
  start_overlay a st = record st { facade = (try_start_overlay_socket a.socket a.loop st.facade).0 }

  -- The registry, the scheduler, the history and the controller over them.
  unfoldable pub make_controller : Answers → PluginState → PluginState
  unfolding build_state
  make_controller a st = record st {
    controller = some (build_state D S st.facade.config a.fresh st.world);
  }

  -- Of the members that are made, those that the model has: the socket and the controller.
  unfoldable pub make_members : Answers → PluginState → PluginState
  unfolding start_overlay make_controller
  make_members a st = make_controller a (
      start_overlay a
        (record st { facade = record st.facade { overlay_socket = some new_socket } }))

  unfoldable pub load_state : Answers → Call PluginState Unit
  unfolding read_values overlay_load make_members
  load_state a = do
    cfg ← read_values
    modify (set_config cfg)
    modify (overlay_load a)
    modify (make_members a)

  -- The members are reset, the controller's session ended first.
  unfoldable pub teardown : PluginState → PluginState
  unfolding teardown_state
  teardown st =
      let cleared = record st {
        listeners = [];
        facade = record st.facade { config = default_plugin_config; overlay_socket = none };
        config_v2 = no_values H;
      } in
      elim st.controller [
        | none ↦ cleared
        | some c ↦
            let d = teardown_state D S c in
            record cleared { controller = none; world = d.world.0; scheduler = d.tracker.scheduler }
      ]

  -- One call of the host after another, until one throws.
  unfoldable pub each :
      (String → Option Thrown)
      → (String → PluginState → PluginState)
      → List String
      → Call PluginState Unit
  each throws keep [] st = (returned tt, st)
  each throws keep (n ∷ ns) st = elim (throws n) [
    | some e ↦ (threw e, st)
    | none ↦ each throws keep ns (keep n st)
  ]

  abbrev pub add_listener : String → PluginState → PluginState
  add_listener n st = record st { listeners = st.listeners ++ n ∷ [] }

  abbrev pub add_dispatcher_name : String → PluginState → PluginState
  add_dispatcher_name n st = record st { dispatchers = st.dispatchers ++ n ∷ [] }

  -- A refusal is ignored.
  abbrev pub add_lua_name : (String → Bool) → String → PluginState → PluginState
  add_lua_name taken n st =
      if taken n then record st { lua_functions = st.lua_functions ++ n ∷ [] } else st

  unfoldable pub subscribe_events : Answers → Call PluginState Unit
  unfolding each
  subscribe_events a = each a.listen add_listener events

  unfoldable pub register_dispatchers : Answers → Call PluginState Unit
  unfolding each
  register_dispatchers a = each a.add_dispatcher add_dispatcher_name dispatcher_names

  unfoldable pub register_lua_functions : Answers → Call PluginState Unit
  unfolding each
  register_lua_functions a = each (λ n. none) (add_lua_name a.add_lua_function) lua_names

  unfoldable pub check_hash : Answers → Call PluginState Unit
  unfolding hash_ok
  check_hash a =
      if hash_ok a.hash a.client_hash
      then pure tt
      else throw "mru-switcher: header hash mismatch, refusing to load"

  abbrev pub unless_rejected : Option String → Call PluginState Unit
  unless_rejected none = pure tt
  unless_rejected (some reg_err) = throw (
      str_append "mru-switcher: failed to register config values: "
        (str_append reg_err " (if mru-switcher is already loaded, unload it first and try again)"))

  unfoldable pub register_values : Call PluginState Unit
  unfolding register_all
  register_values st =
      let ((h, values), rejected) = register_all H st.host st.config_v2 in
      unless_rejected rejected (record st { host = h; config_v2 = values })

  -- The body of the `try`.
  unfoldable pub initialise : Answers → Call PluginState Unit
  unfolding check_hash register_values load_state subscribe_events register_dispatchers
      register_lua_functions
  initialise a = do
    check_hash a
    register_values
    load_state a
    subscribe_events a
    register_dispatchers a
    register_lua_functions a

  abbrev pub notify : String → PluginState → PluginState
  notify text st = record st { errors = st.errors ++ text ∷ [] }

  abbrev pub caught : Outcome Unit × PluginState → Outcome Loading × PluginState
  caught (returned u, st) = (returned described, st)
  caught (threw (exception what), st) =
      (threw (exception what), notify (str_append "mru-switcher: init failed: " what) (teardown st))
  caught (threw unknown, st) = (
    returned empty_description,
    notify "mru-switcher: init failed (internal error)" (teardown st),
  )

  unfoldable pub plugin_init : Answers → ℕ → Call PluginState Loading
  unfolding initialise teardown
  plugin_init a handle st = caught (initialise a (record st { phandle = some handle }))

  unfoldable pub plugin_exit : PluginState → PluginState
  unfolding teardown
  plugin_exit st = record (teardown st) { phandle = none }
