-- ===== src/System/Safe.antt =====
-- Nothing that the compositor does to the plugin leads it into undefined behaviour.
use Prim.Native.String.{String}
use mru_switcher.Session.Apply
use mru_switcher.Prelude.{
  Bytes, ℕ, ◌+◌, ◌≤◌, ◌≡◌, refl, sym, ap, ◌∙◌, List, Option, none, some, ◌>>=◌, not, arith,
  if_cases, first_of_pair,
}
use mru_switcher.Scheduler.{SchedulerPort}
use mru_switcher.Ports.{Ports}
use mru_switcher.Source.{Desktop}
use mru_switcher.Session.Defs.{SessionController}
use mru_switcher.Session.Invariant.{IsValid, capacity}
use mru_switcher.Session.Safety.{step_safe, run_keeps}
use mru_switcher.Session.Step.{cycles, applies, cancels, fires, changes, step}
use mru_switcher.Events.Runs.{listen-IsRun}
use mru_switcher.Events.{Announcement, opened, activated, closed, destroyed, listen}
use mru_switcher.DispatchArgs.{parse_cycle_args}
use mru_switcher.Dispatch.{
  Answered, dispatch_cycle, dispatch_apply, dispatch_cancel, on_line, on_command,
}
use mru_switcher.Dispatch.Peer.{event_of, handler_step, event_cost}
use mru_switcher.Protocol
use mru_switcher.Protocol.{parse_command}
use mru_switcher.LuaBridge.{
  lua_cycle, lua_apply, lua_cancel, cycle_joined, join_args, Joined, joined, no_string,
}
use mru_switcher.System.{
  UserCommand, cycle_key, apply_key, cancel_key, cycle_in_lua, apply_in_lua, cancel_in_lua, perform,
  Controller, HostEvent, window_opened, window_activated, window_closed, window_destroyed,
  line_sent, timer_fired, world_changed, deliver_event,
}

module _ {S : SchedulerPort} {P : Ports} where
  -- What an answer leaves: a valid controller with all but `n` of the job ids, or none where there was none.
  abbrev pub Left : ℕ → SessionController S P → Option (Option (SessionController S P)) → Type 0
  Left n c o =
      (d : SessionController S P) × (o ≡ some (some d)) × IsValid d × (capacity c ≤ capacity d + n)

  abbrev kept : Option (Answered S P) → Option (Option (SessionController S P))
  kept o = o >>= λ r. some r.0

  cycle-Left :
      (args : String) (c : SessionController S P)
      → IsValid c
      → Left 0 c (kept (dispatch_cycle args (some c)))
  unfolding dispatch_cycle step
  cycle-Left args c v =
      if_cases (λ (o : Option (Answered S P)). Left 0 c (kept o)) (not (parse_cycle_args args).ok)
        (λ _. (c, refl, v, omega arith))
        λ _.
          let (d, e, u, k) =
            step_safe (cycles (parse_cycle_args args).dir (parse_cycle_args args).scope) c v
              (omega arith) in
          let (r, f) = first_of_pair _ e in (d, rw f refl, u, k)

  apply-Left :
      (c : SessionController S P)
      → IsValid c
      → 1 ≤ capacity c
      → Left 1 c (kept (dispatch_apply (some c)))
  unfolding dispatch_apply step
  apply-Left c v room =
      let (d, e, u, k) = step_safe applies c v room in
      let (r, f) = first_of_pair (Apply.apply c) e in (d, rw f refl, u, k)

  cancel-Left :
      (c : SessionController S P)
      → IsValid c
      → P.burst ≤ capacity c
      → Left P.burst c (some (dispatch_cancel (some c)).0)
  unfolding dispatch_cancel step
  cancel-Left c v room = let (d, e, u, k) = step_safe cancels c v room in (d, ap some e, u, k)

  lua_cycle-Left :
      (args : List (Option String)) (c : SessionController S P)
      → IsValid c
      → Left 0 c (lua_cycle args (some c) >>= λ r. some r.0)
  unfolding lua_cycle cycle_joined
  lua_cycle-Left args c v = of_joined (join_args 1 args "")
    where
      of_joined : (j : Joined) → Left 0 c (cycle_joined (some c) j >>= λ r. some r.0)
      of_joined (no_string i) = (c, refl, v, omega arith)
      of_joined (joined text) =
          let (d, e, u, k) = cycle-Left text c v in
          let (r, f) = first_of_pair (dispatch_cycle text (some c)) e in (d, rw f refl, u, k)

  lua_apply-Left :
      (c : SessionController S P)
      → IsValid c
      → 1 ≤ capacity c
      → Left 1 c (lua_apply (some c) >>= λ r. some r.0)
  unfolding lua_apply
  lua_apply-Left c v room =
      let (d, e, u, k) = apply-Left c v room in
      let (r, f) = first_of_pair (dispatch_apply (some c)) e in (d, rw f refl, u, k)

  line-Left :
      (line : Bytes) (c : SessionController S P)
      → IsValid c
      → P.burst + 1 ≤ capacity c
      → (d : SessionController S P) × (on_line line c ≡ some d)
        × IsValid d
        × (capacity c ≤ capacity d + (P.burst + 1))
  unfolding on_line on_command
  line-Left line c v room = of_command (parse_command line)
    where
      of_command :
          (o : Option Protocol.Command)
          → (d : SessionController S P) × (on_command o c ≡ some d)
            × IsValid d
            × (capacity c ≤ capacity d + (P.burst + 1))
      of_command none = (c, refl, v, omega arith)
      of_command (some cmd) =
          let cheap = event_cost P.World P.burst cmd.type cmd.index in
          let (d, e, u, k) = step_safe (event_of cmd) c v (omega (arith, cheap)) in
          (d, handler_step cmd.type cmd.index c ∙ e, u, omega (arith, cheap, k))

-- With no controller a cycle makes none.
module _ {S : SchedulerPort} {P : Ports} where
  cycle-none : (args : String) → kept {S = S} {P = P} (dispatch_cycle args none) ≡ some none
  unfolding dispatch_cycle
  cycle-none args =
      if_cases (λ (o : Option (Answered S P)). kept o ≡ some none) (not (parse_cycle_args args).ok)
        (λ _. refl) (λ _. refl)

  lua_cycle-none :
      (args : List (Option String))
      → (lua_cycle {S = S} {P = P} args none >>= λ r. some r.0) ≡ some none
  unfolding lua_cycle cycle_joined
  lua_cycle-none args = of_joined (join_args 1 args "")
    where
      of_joined : (j : Joined) → (cycle_joined {S = S} {P = P} none j >>= λ r. some r.0) ≡ some none
      of_joined (no_string i) = refl
      of_joined (joined text) =
          let (r, f) = first_of_pair (dispatch_cycle {S = S} {P = P} text none) (cycle-none text) in
          rw f refl

-- How many job ids a command or an event can use up.
abbrev pub command_cost : ℕ → UserCommand → ℕ
command_cost burst (cycle_key args) = 0
command_cost burst apply_key = 1
command_cost burst cancel_key = burst
command_cost burst (cycle_in_lua args) = 0
command_cost burst apply_in_lua = 1
command_cost burst cancel_in_lua = burst

module _ (D : Desktop) (S : SchedulerPort) where
  abbrev pub event_cost_of : HostEvent D S → ℕ
  event_cost_of (window_opened w) = 1
  event_cost_of (window_activated w) = 1
  event_cost_of (window_closed w) = 1
  event_cost_of (window_destroyed w) = 1
  event_cost_of (line_sent line) = D.burst + 1
  event_cost_of (timer_fired id) = 0
  event_cost_of (world_changed w) = 0

  pub perform-Left :
      (k : UserCommand) (c : Controller D S)
      → IsValid c
      → command_cost D.burst k ≤ capacity c
      → Left (command_cost D.burst k) c (perform D S k (some c))
  unfolding perform lua_cancel
  perform-Left (cycle_key args) c v room = cycle-Left args c v
  perform-Left apply_key c v room = apply-Left c v room
  perform-Left cancel_key c v room = cancel-Left c v room
  perform-Left (cycle_in_lua args) c v room = lua_cycle-Left args c v
  perform-Left apply_in_lua c v room = lua_apply-Left c v room
  perform-Left cancel_in_lua c v room = cancel-Left c v room

  -- With no controller a command makes none.
  pub perform-none : (k : UserCommand) → perform D S k none ≡ some none
  unfolding perform dispatch_apply dispatch_cancel lua_apply lua_cancel
  perform-none (cycle_key args) = cycle-none args
  perform-none apply_key = refl
  perform-none cancel_key = refl
  perform-none (cycle_in_lua args) = lua_cycle-none args
  perform-none apply_in_lua = refl
  perform-none cancel_in_lua = refl

  heard-Kept :
      (a : Announcement D.windows.Window) (c : Controller D S)
      → IsValid c
      → 1 ≤ capacity c
      → (d : Controller D S) × (some (listen D S a c) ≡ some d)
        × IsValid d
        × (capacity c ≤ capacity d + 1)
  heard-Kept a c v room =
      let (es, e, cheap) = listen-IsRun D S a c in
      let (d, f, u, k) = run_keeps es c v (omega arith) in (d, sym e ∙ f, u, omega arith)

  pub deliver_event-Kept :
      (h : HostEvent D S) (c : Controller D S)
      → IsValid c
      → event_cost_of h ≤ capacity c
      → (d : Controller D S) × (deliver_event D S h c ≡ some d)
        × IsValid d
        × (capacity c ≤ capacity d + event_cost_of h)
  unfolding deliver_event
  deliver_event-Kept (window_opened w) c v room = heard-Kept (opened w) c v room
  deliver_event-Kept (window_activated w) c v room = heard-Kept (activated w) c v room
  deliver_event-Kept (window_closed w) c v room = heard-Kept (closed w) c v room
  deliver_event-Kept (window_destroyed w) c v room = heard-Kept (destroyed w) c v room
  deliver_event-Kept (line_sent line) c v room = line-Left line c v room
  deliver_event-Kept (timer_fired id) c v room = step_safe (fires id) c v room
  deliver_event-Kept (world_changed w) c v room = step_safe (changes w) c v room
