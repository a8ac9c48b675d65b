-- ===== src/Plugin/Life.antt =====
-- The whole life of the plugin.
use mru_switcher.Prelude.{
  ℕ, ◌≤◌, ◌≡◌, refl, sym, Bool, true, false, List, [], ◌∷◌, ◌++◌, none, some, arith, contains,
  Distinct, All, contains-append,
}
use mathlib.Core.List.{append_assoc, append-nil}
use mru_switcher.Window.{WindowRef, window_eq, ref_eq_iff, Scope}
use mru_switcher.Scheduler.{SchedulerPort}
use mru_switcher.History
use mru_switcher.History.{seed_loop}
use mru_switcher.History.Invariant as Tracker
use mru_switcher.Config.{PluginConfig}
use mru_switcher.Session.Apply.{plugin_shutdown}
use mru_switcher.Registry.Laws as Registry
use mru_switcher.Source.{Desktop, World, candidates, is_valid}
use mru_switcher.Source.Answer.{hypr_ports, candidates_lem}
use mru_switcher.Session.Defs.{SessionController}
use mru_switcher.Session.Defs as Session
use mru_switcher.Session.Invariant.{IsValid, capacity}
use mru_switcher.Session.Safety.{costs, run_safe, shutdown-IsValid}
use mru_switcher.Session.Step.{Event, run}
use mru_switcher.Plugin.{build_state, teardown_state, new_registry, to_uint32}

still_absent :
    (ws order : List WindowRef) (r : WindowRef)
    → contains ws r ≡ false
    → All (λ x. contains order x ≡ false) ws
    → All (λ x. contains (order ++ r ∷ []) x ≡ false) ws
still_absent [] order r h n = tt
still_absent (x ∷ ws) order r h n = (
  ground (arith, contains-append order (r ∷ []) x, ref_eq_iff r x, ref_eq_iff x r),
  still_absent ws order r (ground arith) n.1,
)

none_there : (ws : List WindowRef) → All (λ x. contains [] x ≡ false) ws
none_there [] = tt
none_there (x ∷ ws) = (refl, none_there ws)

-- A list of valid windows with no repetition is taken over as it is.
seed_loop_fresh :
    (p : WindowRef → Bool) (ws order : List WindowRef)
    → All (λ r. p r ≡ true) ws
    → Distinct ws
    → All (λ r. contains order r ≡ false) ws
    → seed_loop p ws order ≡ order ++ ws
unfolding seed_loop
seed_loop_fresh p [] order a d n = sym (append-nil order)
seed_loop_fresh p (r ∷ ws) order a d n =
    let shorter =
      seed_loop_fresh p ws (order ++ r ∷ []) a.1 d.1 (still_absent ws order r d.0 n.1) in
    ground (arith, shorter, append_assoc order (r ∷ []) ws)

module _ (D : Desktop) (S : SchedulerPort) where
  -- What the window source answers when the plugin is loaded.
  abbrev pub offer : D.windows.State → World D × List WindowRef
  offer s = candidates D [] Scope.global (s, new_registry D S)

  pub build_state-IsValid :
      (cfg : PluginConfig) (scheduler : S.State) (s : D.windows.State)
      → S.IsValid scheduler
      → ((j : ℕ) → S.job scheduler j ≡ none)
      → IsValid (build_state D S cfg scheduler s)
  unfolding build_state History.init History.seed Session.init
  build_state-IsValid cfg scheduler s v free = record {
    tracker_valid =
        Tracker.seed-IsValid S (Tracker.init-IsValid S scheduler (to_uint32 cfg.debounce_ms) v free)
          (is_valid D (offer s).0) (offer s).1;
    locked = refl;
    selected = (refl, refl);
  }

  pub teardown_state-jobs :
      (c : SessionController S (hypr_ports D))
      → IsValid c
      → (j : ℕ) → S.job (teardown_state D S c).tracker.scheduler j ≡ none
  unfolding teardown_state
  teardown_state-jobs c v j =
      let (u, _) = shutdown-IsValid c v in
      let w = Tracker.cancel_pending-IsValid S u.tracker_valid in
      let (_, gone, _, _, _) = Tracker.cancel_pending-Cleared S (plugin_shutdown c).tracker in
      ground (arith, w.jobs j, gone)

  new_registry-IsValid : Registry.IsValid D.windows (new_registry D S)
  new_registry-IsValid = record {
    unique = tt;
    placed = λ k e f. ground arith;
    held = λ k e w f g. ground arith;
  }

  build_state-order :
      (cfg : PluginConfig) (scheduler : S.State) (s : D.windows.State)
      → (build_state D S cfg scheduler s).tracker.order ≡ (offer s).1
  unfolding build_state History.init History.seed Session.init
  build_state-order cfg scheduler s =
      let (d, _, _, _, ok_, _, _) =
        candidates_lem D [] Scope.global s (new_registry D S) new_registry-IsValid in
      seed_loop_fresh (is_valid D (offer s).0) (offer s).1 [] ok_ d (none_there (offer s).1)

  pub build_state-capacity :
      (cfg : PluginConfig) (scheduler : S.State) (s : D.windows.State)
      → capacity (build_state D S cfg scheduler s) ≡ S.capacity scheduler
  unfolding build_state History.init History.seed
  build_state-capacity cfg scheduler s = refl

  -- A plugin that is loaded over an idle scheduler starts with the order that the compositor offers;
  -- then every sequence of events for which job ids are left runs without undefined behaviour; and
  -- when the plugin is unloaded after it, no job of its waits in the scheduler any more.
  pub build_state-run :
      (cfg : PluginConfig) (scheduler : S.State) (s : D.windows.State) (es : List (Event (World D)))
      → S.IsValid scheduler
      → ((j : ℕ) → S.job scheduler j ≡ none)
      → costs D.burst es ≤ S.capacity scheduler
      → let c = build_state D S cfg scheduler s in
        (c.tracker.order ≡ (offer s).1)
        × (d : SessionController S (hypr_ports D)) × (run es c ≡ some d)
        × ((j : ℕ) → S.job (teardown_state D S d).tracker.scheduler j ≡ none)
  build_state-run cfg scheduler s es v free room =
      let c = build_state D S cfg scheduler s in
      let (d, e, u) =
        run_safe es c (build_state-IsValid cfg scheduler s v free)
          (omega (arith, build_state-capacity cfg scheduler s)) in
      (build_state-order cfg scheduler s, d, e, teardown_state-jobs d u)
