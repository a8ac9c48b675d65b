-- ===== src/PluginEntry/Listening.antt =====
-- The listener of `config.reloaded` in src/plugin/plugin_events.cpp, and the guard of every listener.
use Prim.Native.String.{String, ◌++◌ as str_append}
use mru_switcher.Prelude.{none, some}
use mru_switcher.Scheduler.{SchedulerPort}
use mru_switcher.Source.{Desktop}
use mru_switcher.Events.{on_reload}
use mru_switcher.HostConfig.{Host}
use mru_switcher.HostConfig.Calls.{
  exception, unknown, Outcome, returned, threw, modify, ◌>>=◌, ◌>>◌,
}
use mru_switcher.PluginEntry.{
  PluginState, Answers, parsed, read_values, set_config, start_overlay, notify,
  apply_sidecar_overlay,
}

module _ (D : Desktop) (S : SchedulerPort) (H : Host) where
  -- `guarded_listener`
  abbrev pub guarded_listener : String → Outcome Unit × PluginState D S H → PluginState D S H
  guarded_listener tag (returned u, st) = st
  guarded_listener tag (threw (exception what), st) =
      notify D S H (str_append "mru-switcher: " (str_append tag (str_append ": " what))) st
  guarded_listener tag (threw unknown, st) =
      notify D S H (str_append "mru-switcher: " (str_append tag ": internal error")) st

  unfoldable pub overlay_reload : Answers D S H → PluginState D S H → PluginState D S H
  unfolding apply_sidecar_overlay
  overlay_reload a st =
      let (cfg, k) =
        apply_sidecar_overlay a.finite_double (parsed D S H a) st.facade.config st.reload_sink in
      set_config D S H cfg (record st { reload_sink = k })

  -- The debounce and the policy of the controller, which is there while the plugin listens.
  unfoldable pub reload_controller : PluginState D S H → PluginState D S H
  unfolding on_reload
  reload_controller st = elim st.controller [
    | none ↦ st
    | some c ↦ record st { controller = some (on_reload D S st.facade.config c) }
  ]

  unfoldable pub config_reloaded : Answers D S H → PluginState D S H → PluginState D S H
  unfolding read_values overlay_reload reload_controller start_overlay
  config_reloaded a st = guarded_listener "config.reloaded" (
      (do
        cfg ← read_values D S H
        modify (set_config D S H cfg)
        modify (overlay_reload a)
        modify reload_controller
        modify (start_overlay D S H a))
        st)
