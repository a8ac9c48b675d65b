-- ===== src/System/Run.antt =====
-- Sequences of calls of the host, from before the loading of the plugin to after its unloading.
use mru_switcher.Prelude.{
  ℕ, ◌+◌, ◌≤◌, ◌≡◌, refl, sym, ◌∙◌, List, [], ◌∷◌, Option, none, some, arith, inl, inr,
}
use mru_switcher.Scheduler.{SchedulerPort}
use mru_switcher.Source.{Desktop}
use mru_switcher.Session.Invariant.{IsValid, capacity}
use mru_switcher.HostConfig.{Host}
use mru_switcher.PluginEntry.{PluginState, Answers, plugin_exit}
use mru_switcher.PluginEntry.TornDown.{IsTornDown}
use mru_switcher.PluginEntry.Loaded.{plugin_init_outcome, plugin_exit-IsTornDown, plugin_exit-jobs}
use mru_switcher.PluginEntry.ReloadKeeps.{config_reloaded-controller}
use mru_switcher.System.{
  UserCommand, perform, Controller, HostEvent, when_there, HostCall, loads, unloads, reloads,
  commands, happens, with_controller, load_once, reload_once, host_step, host_run,
}
use mru_switcher.System.Safe.{
  command_cost, event_cost_of, perform-Left, perform-none, deliver_event-Kept,
}

none-some : {A : Type 0} {a : A} → ¬ (none ≡ some a)
none-some e = cc

module _ (D : Desktop) (S : SchedulerPort) (H : Host) where
  abbrev Whole : ℕ → Option (Controller D S) → PluginState D S H → Type 0
  Whole n none st = st.listeners ≡ []
  Whole n (some c) st = IsValid c × (n ≤ capacity c)

  -- A plugin that is not loaded does not listen; one that is has a valid controller with that many
  -- job ids left.
  abbrev pub IsWhole : ℕ → PluginState D S H → Type 0
  IsWhole n st = Whole n st.controller st

  abbrev pub call_cost : HostCall D S H → ℕ
  call_cost (loads a handle) = 0
  call_cost unloads = 0
  call_cost (reloads a) = 0
  call_cost (commands k) = command_cost D.burst k
  call_cost (happens h) = event_cost_of D S h

  abbrev pub call_costs : List (HostCall D S H) → ℕ
  call_costs [] = 0
  call_costs (k ∷ ks) = call_cost k + call_costs ks

  -- Each loading makes a scheduler that is idle and has as many job ids as what follows can use up.
  abbrev pub Starts : HostCall D S H → ℕ → Type 0
  Starts (loads a handle) n =
      S.IsValid a.fresh × ((j : ℕ) → S.job a.fresh j ≡ none) × (n ≤ S.capacity a.fresh)
  Starts _ n = Unit

  abbrev pub AllStart : List (HostCall D S H) → Type 0
  AllStart [] = Unit
  AllStart (k ∷ ks) = Starts k (call_costs ks) × AllStart ks

  loads-Whole :
      (a : Answers D S H) (handle n : ℕ) (o : Option (Controller D S)) (st : PluginState D S H)
      → st.controller ≡ o
      → Whole n o st
      → Starts (loads a handle) n
      → IsWhole n (load_once D S H a handle o st)
  loads-Whole a handle n (some c) st e w s = rw e w
  loads-Whole a handle n none st e w (v, free, room) =
      elim (plugin_init_outcome D S H a handle st v free w) [
        | inl (_, _, _, _, _, _, c, f, u, full) ↦ rw f (u, omega (arith, full))
        | inr (_, t, _, _, _) ↦ rw t.no_controller t.no_listeners
      ]

  reloads-Whole :
      (a : Answers D S H) (n : ℕ) (o : Option (Controller D S)) (st : PluginState D S H)
      → st.controller ≡ o
      → Whole n o st
      → IsWhole n (reload_once D S H a o st)
  reloads-Whole a n none st e w = rw e w
  reloads-Whole a n (some c) st e (v, room) =
      let (d, f, u, k) = config_reloaded-controller D S H a st c e v in rw f (u, omega arith)

  commands-Whole :
      (k : UserCommand) (n : ℕ) (o : Option (Controller D S)) (st : PluginState D S H)
      → Whole (command_cost D.burst k + n) o st
      → (t : PluginState D S H) × (with_controller D S H (perform D S k o) st ≡ some t)
        × IsWhole n t
  commands-Whole k n none st w = (record st { controller = none }, rw (perform-none D S k) refl, w)
  commands-Whole k n (some c) st (v, room) =
      let (d, e, u, left) = perform-Left D S k c v (omega arith) in
      (record st { controller = some d }, rw e refl, (u, omega arith))

  happens-Whole :
      (h : HostEvent D S) (n : ℕ) (o : Option (Controller D S)) (st : PluginState D S H)
      → Whole (event_cost_of D S h + n) o st
      → (t : PluginState D S H) × (with_controller D S H (when_there D S h o) st ≡ some t)
        × IsWhole n t
  happens-Whole h n none st w = (record st { controller = none }, refl, w)
  happens-Whole h n (some c) st (v, room) =
      let (d, e, u, left) = deliver_event-Kept D S h c v (omega arith) in
      (record st { controller = some d }, rw e refl, (u, omega arith))

  fewer :
      (n m : ℕ) (o : Option (Controller D S)) (st : PluginState D S H)
      → n ≤ m
      → Whole m o st
      → Whole n o st
  fewer n m none st h w = w
  fewer n m (some c) st h (v, room) = (v, omega arith)

  host_step_safe :
      (k : HostCall D S H) (n : ℕ) (st : PluginState D S H)
      → Starts k n
      → IsWhole (call_cost k + n) st
      → (t : PluginState D S H) × (host_step D S H k st ≡ some t) × IsWhole n t
  unfolding host_step
  host_step_safe (loads a handle) n st s w = (
    _,
    refl,
    loads-Whole a handle n st.controller st refl (fewer n (0 + n) st.controller st (omega arith) w)
        s,
  )
  host_step_safe unloads n st s w =
      let (gone, _) = plugin_exit-IsTornDown D S H st in
      (_, refl, rw gone.no_controller gone.no_listeners)
  host_step_safe (reloads a) n st s w = (
    _,
    refl,
    reloads-Whole a n st.controller st refl (fewer n (0 + n) st.controller st (omega arith) w),
  )
  host_step_safe (commands k) n st s w = commands-Whole k n st.controller st w
  host_step_safe (happens h) n st s w = happens-Whole h n st.controller st w

  host_run_safe :
      (ks : List (HostCall D S H)) (st : PluginState D S H)
      → AllStart ks
      → IsWhole (call_costs ks) st
      → (t : PluginState D S H) × (host_run D S H ks st ≡ some t) × IsWhole 0 t
  unfolding host_run
  host_run_safe [] st s w = (st, refl, w)
  host_run_safe (k ∷ ks) st (s, rest) w =
      let (t, e, u) = host_step_safe k (call_costs ks) st s w in
      let (x, f, v) = host_run_safe ks t rest u in (x, rw e f, v)

  exit_jobs :
      (o : Option (Controller D S)) (t : PluginState D S H) (c : Controller D S)
      → t.controller ≡ o
      → Whole 0 o t
      → t.controller ≡ some c
      → (j : ℕ) → S.job (plugin_exit D S H t).scheduler j ≡ none
  exit_jobs none t c e w f = absurd (none-some (sym e ∙ f))
  exit_jobs (some d) t c e (v, room) f = plugin_exit-jobs D S H t d e v

  -- The whole plugin: whatever the compositor does, in any order, while job ids are left and each
  -- loading makes an idle scheduler: load the plugin where it is not loaded, unload it, call its
  -- dispatchers and its functions of Lua, and, where it is loaded, reload its configuration, announce
  -- windows, hand it the lines of a peer, let its timers run out and change the windows behind its
  -- back. From a state in which the plugin is not loaded and does not listen, or has a valid
  -- controller, no precondition of the code is broken on the way, and the state after it is such a
  -- state again. When the plugin is then unloaded, the handle, the controller, the listeners, the slots
  -- of the configuration and the socket are gone, the configuration is the default one, and of a
  -- controller that was there no job is left; of the dispatchers, the functions of Lua and the values
  -- that the host was given nothing is said.
  pub host_run-IsWhole :
      (ks : List (HostCall D S H)) (st : PluginState D S H)
      → AllStart ks
      → IsWhole (call_costs ks) st
      → (t : PluginState D S H) × (host_run D S H ks st ≡ some t)
        × IsWhole 0 t
        × IsTornDown D S H (plugin_exit D S H t)
        × ((plugin_exit D S H t).phandle ≡ none)
        × ((c : Controller D S)
            → t.controller ≡ some c
            → (j : ℕ) → S.job (plugin_exit D S H t).scheduler j ≡ none)
  host_run-IsWhole ks st s w =
      let (t, e, u) = host_run_safe ks st s w in
      let (gone, free) = plugin_exit-IsTornDown D S H t in
      (t, e, u, gone, free, λ c f. exit_jobs t.controller t c refl u f)
