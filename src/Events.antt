-- ===== src/Events.antt =====
-- src/plugin/plugin_events.cpp: what the plugin does when the compositor announces something. A null
-- window is not announced here: the listeners return at once.
pub mod Runs
use mru_switcher.Prelude.{Bool, Option, none, some, if◌then◌else◌}
use mru_switcher.Scheduler.{SchedulerPort}
use mru_switcher.History
use mru_switcher.Config.{PluginConfig}
use mru_switcher.Registry.{register_window, on_window_close, last_ref}
use mru_switcher.Source.{Desktop}
use mru_switcher.Source.Answer.{hypr_ports}
use mru_switcher.Session.Defs.{SessionController, on_focus}
use mru_switcher.Session.Apply.{on_window_invalid, set_policy}
use mru_switcher.Plugin.{policy_from_config, to_uint32}

-- The events that are listened to. `reloaded` carries the configuration that was read.
pub data Announcement (W : Type 0) : Type 0 where
  opened activated closed destroyed : W → Announcement W
  reloaded : PluginConfig → Announcement W

module _ (D : Desktop) (S : SchedulerPort) where
  unfoldable pub on_open :
      D.windows.Window → SessionController S (hypr_ports D) → SessionController S (hypr_ports D)
  on_open w c = record c {
    world = (c.world.0, (register_window D.windows c.world.0 w c.world.1).0);
  }

  unfoldable pub on_active :
      D.windows.Window → SessionController S (hypr_ports D) → SessionController S (hypr_ports D)
  on_active w c =
      let (r, ref) = register_window D.windows c.world.0 w c.world.1 in
      on_focus ref (record c { world = (c.world.0, r) })

  unfoldable pub on_close :
      D.windows.Window → SessionController S (hypr_ports D) → SessionController S (hypr_ports D)
  on_close w c =
      let r = on_window_close D.windows c.world.0 w c.world.1 in
      let d : SessionController S (hypr_ports D) = record c { world = (c.world.0, r) } in
      elim (last_ref D.windows w r) [ none ↦ d | some ref ↦ on_window_invalid ref d ]

  unfoldable pub on_reload :
      PluginConfig → SessionController S (hypr_ports D) → SessionController S (hypr_ports D)
  on_reload cfg c =
      set_policy (policy_from_config cfg)
        (record c { tracker = History.set_debounce_ms S (to_uint32 cfg.debounce_ms) c.tracker })

  unfoldable pub listen :
      Announcement D.windows.Window
      → SessionController S (hypr_ports D)
      → SessionController S (hypr_ports D)
  unfolding on_open on_active on_close on_reload
  listen (opened w) c = on_open w c
  listen (activated w) c = on_active w c
  listen (closed w) c = on_close w c
  listen (destroyed w) c = if D.windows.alive c.world.0 w then on_close w c else c
  listen (reloaded cfg) c = on_reload cfg c
