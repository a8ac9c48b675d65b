-- ===== src/System.antt =====
-- The whole plugin, as the compositor drives it: src/plugin/mru_plugin.cpp loads and unloads it, the
-- listeners of src/plugin/plugin_events.cpp, the dispatchers of src/plugin/plugin_dispatch.cpp, the
-- functions of src/plugin/plugin_lua_bridge.cpp, the lines of a peer and the timers act on its state.
pub mod Safe
pub mod Run
use Prim.Native.String.{String}
use mru_switcher.Prelude.{ℕ, List, [], ◌∷◌, Option, none, some, ◌>>=◌, Bytes}
use mru_switcher.Scheduler.{SchedulerPort}
use mru_switcher.Source.{Desktop, World}
use mru_switcher.Source.Answer.{hypr_ports}
use mru_switcher.Session.Defs.{SessionController}
use mru_switcher.Session.Step.{fires, changes, step}
use mru_switcher.Events.{Announcement, opened, activated, closed, destroyed, listen}
use mru_switcher.Dispatch.{dispatch_cycle, dispatch_apply, dispatch_cancel, on_line}
use mru_switcher.HostConfig.{Host}
use mru_switcher.PluginEntry.{PluginState, Answers, plugin_init, plugin_exit}
use mru_switcher.PluginEntry.Listening.{config_reloaded}
use mru_switcher.LuaBridge.{lua_cycle, lua_apply, lua_cancel}

-- A dispatcher or a function of Lua; `status` changes nothing.
pub data UserCommand : Type 0 where
  cycle_key : String → UserCommand
  apply_key cancel_key : UserCommand
  cycle_in_lua : List (Option String) → UserCommand
  apply_in_lua cancel_in_lua : UserCommand

module _ (D : Desktop) (S : SchedulerPort) where
  abbrev pub Controller : Type 0
  Controller = SessionController S (hypr_ports D)

  -- The controller after a command; `none` where a precondition of its code is broken.
  unfoldable pub perform : UserCommand → Option Controller → Option (Option Controller)
  unfolding dispatch_cycle dispatch_apply dispatch_cancel lua_cycle lua_apply lua_cancel
  perform (cycle_key args) o = dispatch_cycle args o >>= λ r. some r.0
  perform apply_key o = dispatch_apply o >>= λ r. some r.0
  perform cancel_key o = some (dispatch_cancel o).0
  perform (cycle_in_lua args) o = lua_cycle args o >>= λ r. some r.0
  perform apply_in_lua o = lua_apply o >>= λ r. some r.0
  perform cancel_in_lua o = some (lua_cancel o).0

  -- What reaches the controller only while there is one: a window that opens, is activated, closes or is
  -- destroyed, a line of a peer, a timer, and any change of the compositor's windows.
  pub data HostEvent : Type 0 where
    window_opened window_activated window_closed window_destroyed : D.windows.Window → HostEvent
    line_sent : Bytes → HostEvent
    timer_fired : ℕ → HostEvent
    world_changed : World D → HostEvent

  unfoldable pub deliver_event : HostEvent → Controller → Option Controller
  unfolding listen on_line step
  deliver_event (window_opened w) c = some (listen D S (opened w) c)
  deliver_event (window_activated w) c = some (listen D S (activated w) c)
  deliver_event (window_closed w) c = some (listen D S (closed w) c)
  deliver_event (window_destroyed w) c = some (listen D S (destroyed w) c)
  deliver_event (line_sent line) c = on_line line c
  deliver_event (timer_fired id) c = step (fires id) c
  deliver_event (world_changed w) c = step (changes w) c

  abbrev pub when_there : HostEvent → Option Controller → Option (Option Controller)
  when_there h none = some none
  when_there h (some c) = deliver_event h c >>= λ d. some (some d)

  module _ (H : Host) where
    pub data HostCall : Type 0 where
      loads : Answers D S H → ℕ → HostCall
      unloads : HostCall
      reloads : Answers D S H → HostCall
      commands : UserCommand → HostCall
      happens : HostEvent → HostCall

    abbrev pub with_controller :
        Option (Option Controller) → PluginState D S H → Option (PluginState D S H)
    with_controller o st = o >>= λ c. some (record st { controller = c })

    -- The host loads a plugin that is not loaded, and its events reach one that is.
    abbrev pub load_once :
        Answers D S H → ℕ → Option Controller → PluginState D S H → PluginState D S H
    load_once a handle none st = (plugin_init D S H a handle st).1
    load_once a handle (some c) st = st

    abbrev pub reload_once :
        Answers D S H → Option Controller → PluginState D S H → PluginState D S H
    reload_once a none st = st
    reload_once a (some c) st = config_reloaded D S H a st

    unfoldable pub host_step : HostCall → PluginState D S H → Option (PluginState D S H)
    unfolding plugin_exit config_reloaded perform deliver_event
    host_step (loads a handle) st = some (load_once a handle st.controller st)
    host_step unloads st = some (plugin_exit D S H st)
    host_step (reloads a) st = some (reload_once a st.controller st)
    host_step (commands k) st = with_controller (perform k st.controller) st
    host_step (happens h) st = with_controller (when_there h st.controller) st

    unfoldable pub host_run : List HostCall → PluginState D S H → Option (PluginState D S H)
    unfolding host_step
    host_run [] st = some st
    host_run (k ∷ ks) st = host_step k st >>= host_run ks
