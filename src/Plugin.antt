-- ===== src/Plugin.antt =====
-- src/plugin/plugin_lifecycle.cpp: the plugin from its loading to its unloading, over a compositor and
-- a scheduler that are parameters. The configuration is an argument of the loading.
pub mod Life
pub mod Host
use mru_switcher.Prelude.{ℕ, ◌+◌, ◌-◌, ◌%◌, ◌^◌, Bool, true, false, List, [], ◌∷◌, ℤ, pos, negsuc}
use mru_switcher.Window.{SessionPolicy, Scope}
use mru_switcher.Scheduler.{SchedulerPort}
use mru_switcher.History
use mru_switcher.Config.{PluginConfig}
use mru_switcher.Registry.{WindowIdentityRegistry}
use mru_switcher.Source.{Desktop, candidates, is_valid}
use mru_switcher.Source.Answer.{hypr_ports}
use mru_switcher.Session.Defs.{SessionController, init}
use mru_switcher.Session.Apply.{plugin_shutdown}

unfoldable pub policy_from_config : PluginConfig → SessionPolicy
policy_from_config cfg = record {
  default_scope = cfg.default_scope;
  start_offset = cfg.start_offset;
  wrap = cfg.wrap;
  restore_focus_on_cancel = cfg.restore_focus_on_cancel;
}

-- `static_cast<std::uint32_t>`
abbrev pub to_uint32 : ℤ → ℕ
to_uint32 (pos n) = n % 2 ^ 32
to_uint32 (negsuc n) = 2 ^ 32 - 1 - n % 2 ^ 32

module _ (D : Desktop) (S : SchedulerPort) where
  abbrev pub new_registry : WindowIdentityRegistry D.windows
  new_registry = record { by_address = []; seq_counter = 0 }

  -- The registry, the history and the controller are made, and the history is seeded with what the
  -- window source then answers.
  unfoldable pub build_state :
      PluginConfig → S.State → D.windows.State → SessionController S (hypr_ports D)
  unfolding policy_from_config
  build_state cfg scheduler s =
      let tracker = History.init S scheduler (to_uint32 cfg.debounce_ms) in
      let c = init {S = S} {P = hypr_ports D} (s, new_registry) tracker (policy_from_config cfg) in
      let (world, windows) = candidates D tracker.order Scope.global c.world in
      record c { world = world; tracker = History.seed S (is_valid D world) windows tracker }

  -- The session is ended and the history destroyed, which cancels what it has pending.
  unfoldable pub teardown_state :
      SessionController S (hypr_ports D) → SessionController S (hypr_ports D)
  teardown_state c =
      let d = plugin_shutdown c in record d { tracker = History.cancel_pending S d.tracker }
