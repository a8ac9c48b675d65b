-- ===== src/PluginEntry/TornDown.antt =====
-- What the teardown in src/plugin/mru_plugin.cpp resets.
use mru_switcher.Prelude.{◌≡◌, refl, [], Option, none, some}
use mru_switcher.Scheduler.{SchedulerPort}
use mru_switcher.Config.{default_plugin_config}
use mru_switcher.Source.{Desktop}
use mru_switcher.Source.Answer.{hypr_ports}
use mru_switcher.Session.Defs.{SessionController}
use mru_switcher.HostConfig.{Host, no_values}
use mru_switcher.PluginEntry.{PluginState, teardown}

module _ (D : Desktop) (S : SchedulerPort) (H : Host) where
  abbrev pub State : Type 0
  State = PluginState D S H

  -- The controller, the listeners, the slots of the configuration and the socket are reset, and the
  -- configuration is the default one. The teardown leaves the dispatchers, the Lua functions and the
  -- values that the host was given as they are.
  pub record IsTornDown (st : State) : Type 0 where
    pub no_controller : st.controller ≡ none
    pub no_listeners : st.listeners ≡ []
    pub no_slots : st.config_v2 ≡ no_values H
    pub no_socket : st.facade.overlay_socket ≡ none
    pub config : st.facade.config ≡ default_plugin_config

  pub teardown-IsTornDown : (st : State) → IsTornDown (teardown D S H st)
  unfolding teardown
  teardown-IsTornDown st = of_controller st.controller refl
    where
      of_controller :
          (o : Option (SessionController S (hypr_ports D)))
          → st.controller ≡ o
          → IsTornDown (teardown D S H st)
      of_controller none e =
          rw (e, teardown)
            (record {
              no_controller = e;
              no_listeners = refl;
              no_slots = refl;
              no_socket = refl;
              config = refl;
            })
      of_controller (some c) e =
          rw (e, teardown)
            (record {
              no_controller = refl;
              no_listeners = refl;
              no_slots = refl;
              no_socket = refl;
              config = refl;
            })
