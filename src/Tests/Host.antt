-- ===== src/Tests/Host.antt =====
-- The theorems on the host's values, the loading of the plugin, the functions of Lua and the timer of
-- the pulse at concrete inputs.
use Prim.Native.String.{String}
use mru_switcher.Prelude.{
  ℕ, zero, suc, ◌≡◌, ◌⊎◌, refl, sym, ap, ◌∙◌, value_or, Bool, true, false, List, [], ◌∷◌, ◌++◌,
  Option, none, some, ◌>>=◌, ℤ, pos, negsuc, less, if◌then◌else◌, ◌==◌, ==_iff, filter,
}
use mru_switcher.Clock
use mru_switcher.Clock.{fresh_clock}
use mru_switcher.Clock.Port.{clock_port}
use mru_switcher.Config.{PluginConfig, default_plugin_config}
use mru_switcher.Source.{World}
use mru_switcher.Source.Answer.{hypr_ports}
use mru_switcher.Session.Defs.{SessionController}
use mru_switcher.Session.Invariant.{IsValid, capacity}
use mru_switcher.Session.Step.{Event, focuses}
use mru_switcher.Sidecar.Range.{InRange}
use mru_switcher.DispatchArgs.{read_tokens, tokens_of}
use mru_switcher.Dispatch.{dispatch_cycle}
use mru_switcher.Plugin.{build_state, policy_from_config}
use mru_switcher.Plugin.Life.{build_state-IsValid}
use mru_switcher.HostConfig.{Carrier, Host, Values, Notices, no_values, read_config}
use mru_switcher.HostConfig.Calls.{returned}
use mru_switcher.HostConfig.Register.{
  registrations, Registration, made, rejection, register_from, register_all,
}
use mru_switcher.HostConfig.Register.Laws.{Accepts, fill, register_all_outcome}
use mru_switcher.HostConfig.Range.{register_all-read_config}
use mru_switcher.PluginEntry.{
  hash_ok, Sink, described, events, dispatcher_names, lua_names, PluginState, Answers, plugin_init,
}
use mru_switcher.PluginEntry.Listening.{config_reloaded}
use mru_switcher.PluginEntry.TornDown.{IsTornDown}
use mru_switcher.PluginEntry.Loaded.{plugin_init_outcome}
use mru_switcher.PluginEntry.Reload.{config_reloaded-Follows}
use mru_switcher.LuaBridge.{lua_result_or_raise, lua_cycle}
use mru_switcher.LuaBridge.Words.{lua_cycle-words}
use mru_switcher.PulseTimer.{EventLoop, TimerCall, schedules, cancels, HyprlandPulseTimer, schedule}
use mru_switcher.PulseTimer.Armed.{
  Laws, is_set, IsArmed, Happening, owner_calls, source_fires, happen, happen-IsArmed,
}
use mru_switcher.Tests.{fresh-IsValid, browsing}
use mru_switcher.Tests.Plugin.{laptop}

-- A host that takes a number of values, and holds each as it was made.
abbrev room_for : ℕ → ℕ × Bool
room_for zero = (zero, false)
room_for (suc n) = (n, true)

abbrev pub small_host : Host
small_host = record {
  State = ℕ;
  Float = String;
  float_of = λ s. s;
  Value = λ t. String × Carrier String t;
  make_config_value = λ t key description default. (key, default);
  add_config_value = λ v h. room_for h;
  underlying = λ {t} v. t;
  name = λ v. v.0;
  value = λ v h. v.1;
}

abbrev quiet : Notices
quiet = record { lock_warned = false; style_warned = false; notifications = [] }

register_all_outcome_example :
    ((k : ℕ) × Accepts small_host (registrations small_host) 3 k
      × (register_all small_host 3 (no_values small_host)
          ≡ ((k, fill small_host (registrations small_host) (no_values small_host)), none)))
    ⊎ ((before : List (Registration small_host)) × (r : Registration small_host) × (after : List
          (Registration small_host))
        × (k : ℕ) × (m : ℕ) × (registrations small_host ≡ before ++ r ∷ after)
        × Accepts small_host before 3 k
        × (small_host.add_config_value (made small_host r) k ≡ (m, false))
        × (register_all small_host 3 (no_values small_host) ≡ (
          (m, fill small_host (before ++ r ∷ []) (no_values small_host)),
          some (rejection small_host r.key),
        )))
register_all_outcome_example = register_all_outcome small_host 3 (no_values small_host)

fourth_refused :
    (register_all small_host 3 (no_values small_host)).1
    ≡ some
        "host rejected config value 'plugin:mru-switcher:wrap' (name collision: already registered)"
unfolding register_all register_from
fourth_refused = refl

abbrev filled : Values small_host
filled = fill small_host (registrations small_host) (no_values small_host)

register_all-read_config_example :
    (cfg : PluginConfig) × (v : String × ℤ) × ((read_config small_host 7 filled quiet).0
      ≡ returned cfg)
    × (filled.border_size ≡ some v)
    × (less v.1 (negsuc 0) ≡ false → less (pos 100) v.1 ≡ false → InRange cfg)
unfolding register_all register_from
register_all-read_config_example =
    register_all-read_config small_host (λ t key d x. refl) 20 6 7 (no_values small_host) filled
      quiet refl

abbrev silent_sink : Sink
silent_sink = record { warned = false; notifications = [] }

abbrev pub unloaded : PluginState laptop clock_port small_host
unloaded = record {
  phandle = none;
  host = 20;
  config_v2 = no_values small_host;
  facade = record {
    config = default_plugin_config;
    overlay_socket = none;
    warned = false;
    notifications = 0;
  };
  controller = none;
  world = 10 ∷ 20 ∷ [];
  scheduler = fresh_clock;
  listeners = [];
  dispatchers = [];
  lua_functions = [];
  notices = quiet;
  load_sink = silent_sink;
  reload_sink = silent_sink;
  errors = [];
}

-- The configuration file is there and sets a debounce that is too long.
abbrev pub answers : Answers laptop clock_port small_host
answers = record {
  hash = some "efb5099";
  client_hash = some "efb5099";
  file = λ path. some "debounce_ms=9000";
  xdg_config_home = none;
  home = some "/home/u";
  finite_double = λ v. false;
  fresh = fresh_clock;
  socket = record { socket = none; bound = false; mode_set = false; listening = false };
  loop = record { compositor = true; adds = true };
  listen = λ n. none;
  add_dispatcher = λ n. none;
  add_lua_function = λ n. false;
}

plugin_init_outcome_example :
    let (o, t) = plugin_init laptop clock_port small_host answers 1 unloaded in
    ((o ≡ returned described)
      × (hash_ok answers.hash answers.client_hash ≡ true)
      × (t.listeners ≡ events)
      × (t.dispatchers ≡ unloaded.dispatchers ++ dispatcher_names)
      × (t.lua_functions ≡ unloaded.lua_functions ++ filter answers.add_lua_function lua_names)
      × (t.phandle ≡ some 1)
      × (c : SessionController clock_port (hypr_ports laptop)) × (t.controller ≡ some c)
      × IsValid c
      × (capacity c ≡ clock_port.capacity fresh_clock))
    ⊎ (¬ (o ≡ returned described)
        × IsTornDown laptop clock_port small_host t
        × (before : List String) × (text : String) × (t.errors ≡ before ++ text ∷ []))
unfolding Clock.find_job
plugin_init_outcome_example =
    plugin_init_outcome laptop clock_port small_host answers 1 unloaded fresh-IsValid (λ j. refl)
      refl

abbrev controller : SessionController clock_port (hypr_ports laptop)
controller = build_state laptop clock_port default_plugin_config fresh_clock (10 ∷ 20 ∷ [])

controller-IsValid : IsValid controller
unfolding Clock.find_job
controller-IsValid =
    build_state-IsValid laptop clock_port default_plugin_config fresh_clock (10 ∷ 20 ∷ [])
      fresh-IsValid (λ j. refl)

abbrev morning : List (Event (World laptop))
morning = focuses (record { address = 20; generation = 1 }) ∷ []

abbrev loaded : PluginState laptop clock_port small_host
loaded = record unloaded {
  phandle = some 1;
  config_v2 = filled;
  controller = some controller;
  listeners = events;
}

abbrev size_of : Option (String × ℤ) → ℤ
size_of none = pos 0
size_of (some v) = v.1

no_override :
    (v : String × ℤ)
    → loaded.config_v2.border_size ≡ some v
    → (less v.1 (negsuc 0) ≡ false) × (less (pos 100) v.1 ≡ false)
no_override v e = let size : negsuc 0 ≡ v.1 = ap (λ o. size_of o) e in rw (sym size) (refl, refl)

config_reloaded-Follows_example :
    let t = config_reloaded laptop clock_port small_host answers loaded in
    InRange t.facade.config
    × (t.errors ≡ [])
    × (d : SessionController clock_port (hypr_ports laptop)) × (t.controller ≡ some d)
    × IsValid d
    × (d.policy ≡ policy_from_config t.facade.config)
    × (t.facade.config.debounce_ms ≡ pos d.tracker.debounce_ms)
    × (d.snapshot ≡ controller.snapshot)
    × (d.index ≡ controller.index)
    × (d.snapshot_policy ≡ controller.snapshot_policy)
config_reloaded-Follows_example =
    config_reloaded-Follows laptop clock_port small_host answers loaded controller
      (no_values small_host) (λ t key d x. refl) refl (λ v e. no_override v e) refl
      controller-IsValid

lua_cycle-words_example :
    lua_cycle (some "prev" ∷ some "app" ∷ []) (some browsing)
    ≡ (dispatch_cycle "  prev\tapp" (some browsing) >>= λ r. some (r.0, lua_result_or_raise r.1))
unfolding tokens_of read_tokens
lua_cycle-words_example =
    lua_cycle-words ("prev" ∷ "app" ∷ []) "  prev\tapp" (some browsing)
      ((refl, refl), ((refl, refl), tt)) refl

-- An event loop that adds every source, with the number of the next.
abbrev rearmed : ℕ → ℤ → List (ℕ × ℤ) → List (ℕ × ℤ)
rearmed s q [] = []
rearmed s q ((k, p) ∷ l) = (k, if k == s then q else p) ∷ rearmed s q l

abbrev without : ℕ → List (ℕ × ℤ) → List (ℕ × ℤ)
without s [] = []
without s ((k, p) ∷ l) = if k == s then without s l else (k, p) ∷ without s l

abbrev event_loop : EventLoop
event_loop = record {
  State = List (ℕ × ℤ) × ℕ;
  Source = ℕ;
  add_timer = λ h. (((h.1, pos 0) ∷ h.0, suc h.1), some h.1);
  timer_update = λ s q h. (rearmed s q h.0, h.1);
  source_remove = λ s h. (without s h.0, h.1);
  expire = λ s h. (rearmed s (pos 0) h.0, h.1);
}

rearmed-one : (l : List (ℕ × ℤ)) (s : ℕ) (p q : ℤ) → l ≡ (s, p) ∷ [] → rearmed s q l ≡ (s, q) ∷ []
rearmed-one l s p q e = rw (e, (==_iff s s).1 refl) refl

without-one : (l : List (ℕ × ℤ)) (s : ℕ) (p : ℤ) → l ≡ (s, p) ∷ [] → without s l ≡ []
without-one l s p e = rw (e, (==_iff s s).1 refl) refl

no_source : {n : ℕ} → ¬ (some n ≡ none)
no_source e = cc

abbrev event_loop_laws : Laws event_loop
event_loop_laws = record {
  armed = λ h. h.0;
  added =
      λ h k s e. sym (ap (λ r. r.0.0) e) ∙ ap (λ n. (n, pos 0) ∷ h.0) (ap (λ r. value_or r.1 0) e);
  not_added = λ h k e. absurd (no_source (ap (λ r. r.1) e));
  updated = λ h s p q e. rearmed-one h.0 s p q e;
  removed = λ h s p e. without-one h.0 s p e;
  expired = λ h s p e. rearmed-one h.0 s p (pos 0) e;
}

-- A tick may schedule again with a shorter period, or cancel.
data Tick : Type 0 where
  again last : Tick

abbrev calls_of : Tick → List (TimerCall Tick)
calls_of again = schedules true (pos 250) last ∷ []
calls_of last = cancels ∷ []

abbrev idle_timer : HyprlandPulseTimer event_loop Tick
idle_timer = record { timer_source = none; armed_period_ms = pos 0; on_tick = none; loop = ([], 0) }

abbrev pulse : List (Happening event_loop event_loop_laws Tick)
pulse = owner_calls (schedules true (pos 1000) again) ∷ source_fires ∷ source_fires ∷ []

happen-IsArmed_example :
    let u = happen event_loop event_loop_laws Tick calls_of pulse idle_timer in
    IsArmed event_loop event_loop_laws Tick u
    × (let (v, b) = schedule event_loop Tick true (pos 500) last u in
        IsArmed event_loop event_loop_laws Tick v
        × (b ≡ is_set event_loop event_loop_laws Tick v.timer_source))
happen-IsArmed_example =
    happen-IsArmed event_loop event_loop_laws Tick calls_of pulse idle_timer
      (record { held = refl; called = refl }) true (pos 500) last
