-- ===== src/Session/Step.antt =====
-- One event of the plugin's life, and sequences of events: the commands of the user, what the
-- compositor announces, timers, a reload of the configuration, and any change of the world.
use mru_switcher.Prelude.{ℕ, List, [], ◌∷◌, Option, some, ◌>>=◌}
use mru_switcher.Window.{WindowRef, Scope, Direction, SessionPolicy}
use mru_switcher.Scheduler.{SchedulerPort}
use mru_switcher.History
use mru_switcher.Ports.{Ports}
use mru_switcher.Session.Defs.{SessionController, cycle, select_index, on_focus}
use mru_switcher.Session.Apply.{apply, cancel, plugin_shutdown, on_window_invalid, set_policy}

pub data Event (W : Type 0) : Type 0 where
  cycles : Direction → Option Scope → Event W
  selects : ℕ → Event W
  applies cancels shuts_down : Event W
  focuses closes : WindowRef → Event W
  reloads : SessionPolicy → ℕ → Event W
  fires : ℕ → Event W
  changes : W → Event W

module _ {S : SchedulerPort} {P : Ports} where
  unfoldable pub step : Event P.World → SessionController S P → Option (SessionController S P)
  step (cycles dir scope) c = cycle dir scope c >>= λ r. some r.0
  step (selects i) c = some (select_index i c).0
  step applies c = apply c >>= λ r. some r.0
  step cancels c = some (cancel c).0
  step shuts_down c = some (plugin_shutdown c)
  step (focuses r) c = some (on_focus r c)
  step (closes r) c = some (on_window_invalid r c)
  step (reloads policy ms) c =
      some (set_policy policy (record c { tracker = History.set_debounce_ms S ms c.tracker }))
  step (fires id) c = some (record c { tracker = History.fire S (P.is_valid c.world) id c.tracker })
  step (changes w) c = some (record c { world = w })

  unfoldable pub run : List (Event P.World) → SessionController S P → Option (SessionController S P)
  run [] c = some c
  run (e ∷ es) c = step e c >>= run es
