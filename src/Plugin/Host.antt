-- ===== src/Plugin/Host.antt =====
-- The plugin as the compositor runs it: its own scheduler, window source and focus gateway.
use mru_switcher.Prelude.{ℕ, ◌-◌, ◌^◌, ◌≤◌, ◌≡◌, refl, List, none, some, arith, lookup}
use mru_switcher.Config.{PluginConfig}
use mru_switcher.Source.{Desktop, World}
use mru_switcher.Source.Answer.{hypr_ports}
use mru_switcher.Session.Defs.{SessionController}
use mru_switcher.Session.Safety.{costs}
use mru_switcher.Session.Step.{Event, run}
use mru_switcher.Timers.Port.{hypr_scheduler, new_scheduler, new_scheduler-IsValid}
use mru_switcher.Plugin.{build_state, teardown_state}
use mru_switcher.Plugin.Life.{build_state-run}

-- From the loading of the plugin on, every sequence of events that uses fewer than 2 ^ 64 - 1 job ids
-- runs without undefined behaviour, and when the plugin is unloaded after it, none of its timers is
-- left in the event loop.
pub build_state-run_host :
    (D : Desktop) (cfg : PluginConfig) (s : D.windows.State) (es : List (Event (World D)))
    → costs D.burst es ≤ 2 ^ 64 - 2
    → (d : SessionController hypr_scheduler (hypr_ports D)) × (run es
          (build_state D hypr_scheduler cfg new_scheduler s)
        ≡ some d)
      × ((id : ℕ) → lookup id (teardown_state D hypr_scheduler d).tracker.scheduler.timers ≡ none)
build_state-run_host D cfg s es room =
    let (_, d, e, free) =
      build_state-run D hypr_scheduler cfg new_scheduler s es new_scheduler-IsValid (λ j. refl)
        (omega arith) in
    (d, e, free)
