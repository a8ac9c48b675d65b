-- ===== src/Events/Runs.antt =====
-- The listeners are events of the sessions.
use mru_switcher.Prelude.{
  ◌≤◌, ◌≡◌, refl, List, [], ◌∷◌, Option, none, some, if◌then◌else◌, arith, Option-cases, Bool-cases,
  inl, inr,
}
use mru_switcher.Scheduler.{SchedulerPort}
use mru_switcher.Window.{WindowRef}
use mru_switcher.Registry.{WindowIdentityRegistry, register_window, on_window_close, last_ref}
use mru_switcher.Source.{Desktop, World}
use mru_switcher.Source.Answer.{hypr_ports}
use mru_switcher.Session.Defs.{SessionController}
use mru_switcher.Session.Invariant.{IsValid, capacity}
use mru_switcher.Session.Safety.{costs, run_safe}
use mru_switcher.Session.Step.{Event, focuses, closes, reloads, changes, step, run}
use mru_switcher.Plugin.{policy_from_config, to_uint32}
use mru_switcher.Events.{
  Announcement, opened, activated, closed, destroyed, reloaded, on_close, listen,
}

module _ (D : Desktop) (S : SchedulerPort) where
  -- The registry after a window is closed, and the identity that it has for that window.
  abbrev closed_registry : D.windows.Window → World D → WindowIdentityRegistry D.windows
  closed_registry w (s, r) = on_window_close D.windows s w r

  abbrev closing : Option WindowRef → List (Event (World D))
  closing none = []
  closing (some ref) = closes ref ∷ []

  -- The events of the sessions that a window's closing is: the world in which the registry has marked it
  -- closed, then the loss of the window, where the registry still knows which one it was.
  abbrev closing_events : D.windows.Window → World D → List (Event (World D))
  closing_events w (s, r) =
      let after = closed_registry w (s, r) in
      changes (s, after) ∷ closing (last_ref D.windows w after)

  -- The events of the sessions that an announcement is, in a world.
  abbrev pub events_of : Announcement D.windows.Window → World D → List (Event (World D))
  events_of (opened w) (s, r) = changes (s, (register_window D.windows s w r).0) ∷ []
  events_of (activated w) (s, r) =
      let q = register_window D.windows s w r in changes (s, q.0) ∷ focuses q.1 ∷ []
  events_of (closed w) world = closing_events w world
  events_of (destroyed w) (s, r) = if D.windows.alive s w then closing_events w (s, r) else []
  events_of (reloaded cfg) world =
      reloads
        (record {
          default_scope = cfg.default_scope;
          start_offset = cfg.start_offset;
          wrap = cfg.wrap;
          restore_focus_on_cancel = cfg.restore_focus_on_cancel;
        })
        (to_uint32 cfg.debounce_ms)
      ∷ []

  abbrev Runs :
      List (Event (World D))
      → SessionController S (hypr_ports D)
      → SessionController S (hypr_ports D)
      → Type 0
  Runs es c d = (run es c ≡ some d) × (costs D.burst es ≤ 1)

  on_close-Runs :
      (w : D.windows.Window) (c : SessionController S (hypr_ports D))
      → Runs (closing_events w c.world) c (on_close D S w c)
  unfolding on_close run step
  on_close-Runs w c = elim (Option-cases (last_ref D.windows w (closed_registry w c.world))) [
    | inl e ↦ rw (e, on_close) (refl, omega arith)
    | inr (ref, e) ↦ rw (e, on_close) (refl, omega arith)
  ]

  listen-Runs :
      (a : Announcement D.windows.Window) (c : SessionController S (hypr_ports D))
      → Runs (events_of a c.world) c (listen D S a c)
  unfolding listen run step policy_from_config
  listen-Runs (opened w) c = (refl, omega arith)
  listen-Runs (activated w) c = (refl, omega arith)
  listen-Runs (closed w) c = on_close-Runs w c
  listen-Runs (destroyed w) c = elim (Bool-cases (D.windows.alive c.world.0 w)) [
    | inl e ↦ rw (e, listen) (on_close-Runs w c)
    | inr e ↦ rw (e, listen) (refl, omega arith)
  ]
  listen-Runs (reloaded cfg) c = (refl, omega arith)

  -- What a listener makes of a state is what some events that cost one job id at most make of it.
  abbrev pub IsRun :
      SessionController S (hypr_ports D) → SessionController S (hypr_ports D) → Type 0
  IsRun c d = (es : List (Event (World D))) × (run es c ≡ some d) × (costs D.burst es ≤ 1)

  pub listen-IsRun :
      (a : Announcement D.windows.Window) (c : SessionController S (hypr_ports D))
      → IsRun c (listen D S a c)
  listen-IsRun a c = let (e, cheap) = listen-Runs a c in (events_of a c.world, e, cheap)

  -- What the plugin does when the compositor announces something is, from a valid state with a job id
  -- left, exactly the run of these events of the sessions, which cost one job id at most and lead to a
  -- valid state. A window that opens is registered. One that becomes active is registered, then
  -- reported as focused under the identity it was given. One that closes is marked closed, then, where
  -- the registry has an identity for it, reported as lost under that identity; so is one that is
  -- destroyed while it is alive, and one that is not alive is ignored. Of a configuration, the four
  -- settings of the policy and the debounce, as 32 bits, are handed over.
  pub listen-run :
      (a : Announcement D.windows.Window) (c : SessionController S (hypr_ports D))
      → IsValid c
      → 1 ≤ capacity c
      → (run (events_of a c.world) c ≡ some (listen D S a c))
        × (costs D.burst (events_of a c.world) ≤ 1)
        × IsValid (listen D S a c)
  listen-run a c v room =
      let (e, cheap) = listen-Runs a c in
      let (d, f, u) = run_safe (events_of a c.world) c v (omega arith) in
      let same : listen D S a c ≡ d = cc in (e, cheap, rw same u)
