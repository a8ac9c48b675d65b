-- ===== src/Tests/Whole.antt =====
-- The whole plugin at a concrete input: a day with two loadings.
use mru_switcher.Prelude.{ℕ, ◌≡◌, refl, List, [], ◌∷◌, none, some, codes, arith}
use mru_switcher.Clock
use mru_switcher.Clock.{fresh_clock}
use mru_switcher.Clock.Port.{clock_port}
use mru_switcher.PluginEntry.{PluginState, plugin_exit}
use mru_switcher.PluginEntry.TornDown.{IsTornDown}
use mru_switcher.System.{
  cycle_key, cancel_key, apply_in_lua, Controller, HostCall, loads, unloads, reloads, commands,
  happens, window_activated, line_sent, timer_fired, host_run,
}
use mru_switcher.System.Run.{IsWhole, Starts, AllStart, host_run-IsWhole}
use mru_switcher.Tests.{fresh-IsValid}
use mru_switcher.Tests.Plugin.{laptop}
use mru_switcher.Tests.Host.{small_host, unloaded, answers}

abbrev day : List (HostCall laptop clock_port small_host)
day =
    commands cancel_key
    ∷ loads answers 1
    ∷ happens (window_activated 20)
    ∷ commands (cycle_key "next global")
    ∷ happens (line_sent (codes "{\"v\":1,\"type\":\"cancel\"}"))
    ∷ reloads answers
    ∷ commands apply_in_lua
    ∷ happens (timer_fired 1)
    ∷ unloads
    ∷ loads answers 2
    ∷ []

day-AllStart : AllStart laptop clock_port small_host day
unfolding Clock.find_job
day-AllStart =
    let once : Starts laptop clock_port small_host (loads answers 1) 4 =
      (fresh-IsValid, (λ j. refl), omega arith) in
    let again : Starts laptop clock_port small_host (loads answers 2) 0 =
      (fresh-IsValid, (λ j. refl), omega arith) in
    (tt, (once, (tt, (tt, (tt, (tt, (tt, (tt, (tt, (again, tt))))))))))

host_run-IsWhole_example :
    (t : PluginState laptop clock_port small_host) × (host_run laptop clock_port small_host day
        unloaded
      ≡ some t)
    × IsWhole laptop clock_port small_host 0 t
    × IsTornDown laptop clock_port small_host (plugin_exit laptop clock_port small_host t)
    × ((plugin_exit laptop clock_port small_host t).phandle ≡ none)
    × ((c : Controller laptop clock_port)
        → t.controller ≡ some c
        → (j : ℕ) → clock_port.job (plugin_exit laptop clock_port small_host t).scheduler j ≡ none)
host_run-IsWhole_example =
    host_run-IsWhole laptop clock_port small_host day unloaded day-AllStart refl
