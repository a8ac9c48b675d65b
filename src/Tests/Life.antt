-- ===== src/Tests/Life.antt =====
-- The life of the plugin at a concrete input.
use mru_switcher.Prelude.{ℕ, ◌≤◌, ◌≡◌, refl, List, [], ◌∷◌, none, some, arith}
use mru_switcher.Window.{Scope, next}
use mru_switcher.Clock
use mru_switcher.Clock.{fresh_clock}
use mru_switcher.Clock.Port.{clock_port}
use mru_switcher.Config.{default_plugin_config}
use mru_switcher.Source.{World}
use mru_switcher.Source.Answer.{hypr_ports}
use mru_switcher.Session.Defs.{SessionController}
use mru_switcher.Session.Step.{Event, run, cycles, selects, applies, cancels, focuses, fires}
use mru_switcher.Plugin.{build_state, teardown_state}
use mru_switcher.Plugin.Life.{offer, build_state-run, build_state-IsValid, build_state-capacity}
use mru_switcher.Session.Invariant.{IsValid}
use mru_switcher.Session.Safety.{costs}
use mru_switcher.Events.{listen, activated}
use mru_switcher.Events.Runs.{events_of, listen-run}
use mru_switcher.Tests.{fresh-IsValid}
use mru_switcher.Tests.Plugin.{laptop}

abbrev day : List (Event (World laptop))
day =
    focuses (record { address = 20; generation = 1 })
    ∷ cycles next none
    ∷ selects 1
    ∷ applies
    ∷ fires 2
    ∷ cycles next (some Scope.app)
    ∷ cancels
    ∷ []

build_state-run_example :
    let c = build_state laptop clock_port default_plugin_config fresh_clock (10 ∷ 20 ∷ []) in
    (c.tracker.order ≡ (offer laptop clock_port (10 ∷ 20 ∷ [])).1)
    × (d : SessionController clock_port (hypr_ports laptop)) × (run day c ≡ some d)
    × ((j : ℕ) → clock_port.job (teardown_state laptop clock_port d).tracker.scheduler j ≡ none)
unfolding Clock.find_job
build_state-run_example =
    build_state-run laptop clock_port default_plugin_config fresh_clock (10 ∷ 20 ∷ []) day
      fresh-IsValid (λ j. refl) (omega arith)

abbrev loaded : SessionController clock_port (hypr_ports laptop)
loaded = build_state laptop clock_port default_plugin_config fresh_clock (10 ∷ 20 ∷ [])

listen-run_example :
    let es = events_of laptop clock_port (activated 20) loaded.world in
    (run es loaded ≡ some (listen laptop clock_port (activated 20) loaded))
    × (costs 1 es ≤ 1)
    × IsValid (listen laptop clock_port (activated 20) loaded)
unfolding Clock.find_job
listen-run_example =
    listen-run laptop clock_port (activated 20) loaded
      (build_state-IsValid laptop clock_port default_plugin_config fresh_clock (10 ∷ 20 ∷ [])
        fresh-IsValid (λ j. refl))
      (omega (
        arith,
        build_state-capacity laptop clock_port default_plugin_config fresh_clock (10 ∷ 20 ∷ []),
      ))
