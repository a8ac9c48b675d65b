-- ===== src/Dispatch/Peer.antt =====
-- What a peer can do to the session controller.
use mru_switcher.Prelude.{
  ℕ, suc, ◌+◌, ◌*◌, ◌^◌, ◌≤◌, ◌<◌, ◌≡◌, refl, ap, ◌∙◌, fun_ext, List, [], ◌∷◌, Option, none, some,
  ◌>>=◌, length, Bytes, arith,
}
use mru_switcher.Scheduler.{SchedulerPort}
use mru_switcher.Ports.{Ports}
use mru_switcher.Session.Defs.{SessionController, select_index}
use mru_switcher.Session.Step.{Event, selects, applies, cancels, step, run}
use mru_switcher.Session.Invariant.{IsValid, capacity}
use mru_switcher.Session.Safety.{cost, costs, run_safe}
use mru_switcher.Protocol.{Command, CommandType, select, apply, cancel, parse_command}
use mru_switcher.Protocol.Select.{select_line, parse_command-select_line}
use mru_switcher.Dispatch.{overlay_command_handler, on_command, on_line}

abbrev pub event_of : {W : Type 0} → Command → Event W
event_of cmd = elim cmd.type [ select ↦ selects cmd.index | apply ↦ applies | cancel ↦ cancels ]

abbrev pub put_event : {W : Type 0} → Option Command → List (Event W) → List (Event W)
put_event none es = es
put_event (some cmd) es = event_of cmd ∷ es

-- The events that the lines stand for; a line that is no command stands for none.
unfoldable pub events_of : {W : Type 0} → List Bytes → List (Event W)
events_of [] = []
events_of (line ∷ lines) = put_event (parse_command line) (events_of lines)

suc-mul : (a b : ℕ) → suc a * b ≡ b + a * b
suc-mul a b = ground arith

module _ (W : Type 0) (burst : ℕ) where
  pub event_cost :
      (t : CommandType) (i : ℕ)
      → cost burst (event_of {W = W} (record { type = t; index = i })) ≤ burst + 1
  event_cost CommandType.select i = omega arith
  event_cost CommandType.apply i = omega arith
  event_cost CommandType.cancel i = omega arith

  put_cost :
      (o : Option Command) (es : List (Event W))
      → costs burst (put_event o es) ≤ (burst + 1) + costs burst es
  put_cost none es = omega arith
  put_cost (some cmd) es = omega (arith, event_cost cmd.type cmd.index)

  events_cost :
      (lines : List Bytes) → costs burst (events_of {W = W} lines) ≤ length lines * (burst + 1)
  unfolding events_of
  events_cost [] = omega arith
  events_cost (line ∷ lines) = omega (
    arith,
    put_cost (parse_command line) (events_of lines),
    events_cost lines,
    suc-mul (length lines) (burst + 1),
  )

module _ {S : SchedulerPort} {P : Ports} where
  unfoldable pub on_lines : List Bytes → SessionController S P → Option (SessionController S P)
  on_lines [] c = some c
  on_lines (line ∷ lines) c = on_line line c >>= on_lines lines

  pub handler_step :
      (t : CommandType) (i : ℕ) (c : SessionController S P)
      → overlay_command_handler (record { type = t; index = i }) c
        ≡ step (event_of (record { type = t; index = i })) c
  unfolding overlay_command_handler step
  handler_step CommandType.select i c = refl
  handler_step CommandType.apply i c = refl
  handler_step CommandType.cancel i c = refl

  command_run :
      (o : Option Command) (es : List (Event P.World)) (c : SessionController S P)
      → (on_command o c >>= run es) ≡ run (put_event o es) c
  unfolding on_command run
  command_run none es c = refl
  command_run (some cmd) es c = ap (λ d. d >>= run es) (handler_step cmd.type cmd.index c)

  on_lines-run :
      (lines : List Bytes) (c : SessionController S P) → on_lines lines c ≡ run (events_of lines) c
  unfolding on_lines on_line events_of run
  on_lines-run [] c = refl
  on_lines-run (line ∷ lines) c =
      ap (λ (k : SessionController S P → Option (SessionController S P)). on_line line c >>= k)
        (fun_ext (on_lines-run lines))
      ∙ command_run (parse_command line) (events_of lines) c

  -- Whatever lines a peer sends to a valid session controller, job ids enough being left, the handler
  -- returns from each and the controller stays valid: it does what the commands among the lines do,
  -- one after another, and nothing else.
  pub on_lines-IsValid :
      (lines : List Bytes) (c : SessionController S P)
      → IsValid c
      → length lines * (P.burst + 1) ≤ capacity c
      → (on_lines lines c ≡ run (events_of lines) c)
        × ((d : SessionController S P) × (on_lines lines c ≡ some d) × IsValid d)
  on_lines-IsValid lines c v room =
      let (d, e, u) =
        run_safe (events_of lines) c v (omega (arith, events_cost P.World P.burst lines)) in
      (on_lines-run lines c, (d, on_lines-run lines c ∙ e, u))

  -- A selection that a peer prints in decimal, below 2 ^ 63, is the controller's selection of that
  -- index.
  pub on_line-select_line :
      (n : ℕ) (c : SessionController S P)
      → n < 2 ^ 63
      → on_line (select_line n) c ≡ some (select_index n c).0
  unfolding on_line overlay_command_handler
  on_line-select_line n c h = ap (λ o. on_command o c) (parse_command-select_line n h)
