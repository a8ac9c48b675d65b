-- ===== src/PulseTimer.antt =====
-- src/plugin/hypr/hyprland_pulse_timer.cpp and hyprland_pulse_timer.hpp: the timer of the pulse over the
-- compositor's event loop, which is a parameter.
pub mod Armed
use mru_switcher.Prelude.{
  Bool, true, false, not, ◌||◌, List, [], ◌∷◌, Option, none, some, if◌then◌else◌, ℤ, pos, less,
}

-- What the timer asks of the event loop: a source, which it may not get, to arm it, and to remove it.
-- `expire` is what the loop does to a source whose time is over, before it calls back.
pub record EventLoop : Type 1 where
  pub State : Type 0
  pub Source : Type 0
  pub add_timer : State → State × Option Source
  pub timer_update : Source → ℤ → State → State
  pub source_remove : Source → State → State
  pub expire : Source → State → State

-- What the owner of the timer calls, with whether there is an event loop then.
pub data TimerCall (Tick : Type 0) : Type 0 where
  schedules : Bool → ℤ → Tick → TimerCall Tick
  cancels : TimerCall Tick

module _ (E : EventLoop) (Tick : Type 0) where
  pub record HyprlandPulseTimer : Type 0 where
    pub timer_source : Option E.Source
    pub armed_period_ms : ℤ
    pub on_tick : Option Tick
    pub loop : E.State

  abbrev pub remove_source : Option E.Source → E.State → E.State
  remove_source none h = h
  remove_source (some s) h = E.source_remove s h

  unfoldable pub cancel : HyprlandPulseTimer → HyprlandPulseTimer
  cancel t = record t {
    timer_source = none;
    on_tick = none;
    loop = remove_source t.timer_source t.loop;
  }

  -- `if (timer_source_) wl_event_source_timer_update(...)`
  abbrev pub update_source : Option E.Source → ℤ → E.State → E.State
  update_source none period_ms h = h
  update_source (some s) period_ms h = E.timer_update s period_ms h

  unfoldable pub arm : ℤ → HyprlandPulseTimer → HyprlandPulseTimer
  arm period_ms t =
      let (h, source) = E.add_timer t.loop in
      record t {
        timer_source = source;
        armed_period_ms = period_ms;
        loop = update_source source period_ms h;
      }

  -- `if (!timer_source_)`, after `arm`.
  abbrev pub checked : Option E.Source → HyprlandPulseTimer → HyprlandPulseTimer × Bool
  checked none t = (record t { on_tick = none }, false)
  checked (some s) t = (t, true)

  unfoldable pub schedule : Bool → ℤ → Tick → HyprlandPulseTimer → HyprlandPulseTimer × Bool
  unfolding cancel arm
  schedule has_loop period_ms on_tick t =
      let u = cancel t in
      if not has_loop || not (less (pos 0) period_ms)
      then (u, false)
      else let v = arm period_ms (record u { on_tick = some on_tick }) in checked v.timer_source v

  unfoldable pub call : TimerCall Tick → HyprlandPulseTimer → HyprlandPulseTimer
  unfolding schedule cancel
  call (schedules has_loop period_ms on_tick) t = (schedule has_loop period_ms on_tick t).0
  call cancels t = cancel t

  unfoldable pub calls : List (TimerCall Tick) → HyprlandPulseTimer → HyprlandPulseTimer
  unfolding call
  calls [] t = t
  calls (c ∷ cs) t = calls cs (call c t)

  -- A callback may call the timer again; what it throws is caught, what it called stays called.
  abbrev pub ticked :
      (Tick → List (TimerCall Tick)) → Option Tick → HyprlandPulseTimer → HyprlandPulseTimer
  ticked calls_of none t = t
  ticked calls_of (some tick) t = calls (calls_of tick) t

  -- The loop fires the source of the timer.
  unfoldable pub timer_callback :
      (Tick → List (TimerCall Tick)) → HyprlandPulseTimer → HyprlandPulseTimer
  unfolding calls
  timer_callback calls_of t =
      let u = ticked calls_of t.on_tick t in
      record u { loop = update_source u.timer_source u.armed_period_ms u.loop }
