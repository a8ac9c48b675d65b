-- ===== src/PluginEntry/Loaded.antt =====
-- PLUGIN_INIT and PLUGIN_EXIT.
use Prim.Native.String.{String}
use mru_switcher.Prelude.{
  ℕ, ◌≡◌, refl, ◌⊎◌, inl, inr, true, false, List, [], ◌∷◌, ◌++◌, none, some, arith, Bool-cases,
  filter,
}
use mru_switcher.Scheduler.{SchedulerPort}
use mru_switcher.Source.{Desktop}
use mru_switcher.Source.Answer.{hypr_ports}
use mru_switcher.Session.Defs.{SessionController}
use mru_switcher.Session.Invariant.{IsValid, capacity}
use mru_switcher.Plugin.Life.{teardown_state-jobs}
use mru_switcher.HostConfig.{Host}
use mru_switcher.HostConfig.Calls.{exception, unknown, Outcome, returned, threw, Post}
use mru_switcher.PluginEntry.{
  hash_ok, Loading, described, events, dispatcher_names, lua_names, Answers, teardown, initialise,
  plugin_init, plugin_exit, caught, notify, check_hash,
}
use mru_switcher.PluginEntry.TornDown.{State, IsTornDown, teardown-IsTornDown}
use mru_switcher.PluginEntry.Registers.{IsReady}
use mru_switcher.PluginEntry.Init.{initialise-Post}

module _ (D : Desktop) (S : SchedulerPort) (H : Host) where
  abbrev IsLoaded : Answers D S H → ℕ → State D S H → Outcome Loading × State D S H → Type 0
  IsLoaded a handle s r =
      (r.0 ≡ returned described)
      × (hash_ok a.hash a.client_hash ≡ true)
      × (r.1.listeners ≡ events)
      × (r.1.dispatchers ≡ s.dispatchers ++ dispatcher_names)
      × (r.1.lua_functions ≡ s.lua_functions ++ filter a.add_lua_function lua_names)
      × (r.1.phandle ≡ some handle)
      × (c : SessionController S (hypr_ports D)) × (r.1.controller ≡ some c)
      × IsValid c
      × (capacity c ≡ S.capacity a.fresh)

  abbrev IsRefused : Outcome Loading × State D S H → Type 0
  IsRefused r =
      ¬ (r.0 ≡ returned described)
      × IsTornDown D S H r.1
      × (before : List String) × (text : String) × (r.1.errors ≡ before ++ text ∷ [])

  notify-IsTornDown :
      (text : String) (s : State D S H)
      → IsTornDown D S H s
      → IsTornDown D S H (notify D S H text s)
  notify-IsTornDown text s t = record {
    no_controller = t.no_controller;
    no_listeners = t.no_listeners;
    no_slots = t.no_slots;
    no_socket = t.no_socket;
    config = t.config;
  }

  caught-cases :
      (a : Answers D S H) (handle : ℕ) (before : State D S H) (o : Outcome Unit) (s : State D S H)
      → Post
          (IsReady D S H
            (S.capacity a.fresh)
            (some handle)
            before.dispatchers
            before.lua_functions
            a)
          (o, s)
      → hash_ok a.hash a.client_hash ≡ true
      → IsLoaded a handle before (caught D S H (o, s)) ⊎ IsRefused (caught D S H (o, s))
  caught-cases a handle before (returned u) s (l, d, f, h, (c, e, v, full)) ok =
      inl (refl, ok, l, d, f, h, c, e, v, full)
  caught-cases a handle before (threw (exception what)) s p ok = inr (
    (λ e. cc),
    notify-IsTornDown _ _ (teardown-IsTornDown D S H s),
    (teardown D S H s).errors,
    _,
    refl,
  )
  caught-cases a handle before (threw unknown) s p ok = inr (
    (λ e. ground arith),
    notify-IsTornDown _ _ (teardown-IsTornDown D S H s),
    (teardown D S H s).errors,
    _,
    refl,
  )

  initialise-mismatch :
      (a : Answers D S H) (s : State D S H)
      → hash_ok a.hash a.client_hash ≡ false
      → initialise D S H a s
        ≡ (threw (exception "mru-switcher: header hash mismatch, refusing to load"), s)
  unfolding initialise check_hash
  initialise-mismatch a s e = rw (e, initialise, check_hash) refl

  -- Over an idle scheduler and with no listener yet, PLUGIN_INIT returns the description, and then the
  -- headers match, every event is listened to and every dispatcher registered, in order, and so is each
  -- function of Lua that the host takes; the handle is kept, and there is a valid controller with all
  -- the job ids of that scheduler. Or it does not return it, and then there is no controller, no
  -- listener, no slot of the configuration and no socket, the configuration is the default one, and the
  -- last thing it did was to notify the user; of dispatchers and functions of Lua that the host had
  -- taken by then nothing is said.
  pub plugin_init_outcome :
      (a : Answers D S H) (handle : ℕ) (s : State D S H)
      → S.IsValid a.fresh
      → ((j : ℕ) → S.job a.fresh j ≡ none)
      → s.listeners ≡ []
      → let (o, t) = plugin_init D S H a handle s in
        ((o ≡ returned described)
          × (hash_ok a.hash a.client_hash ≡ true)
          × (t.listeners ≡ events)
          × (t.dispatchers ≡ s.dispatchers ++ dispatcher_names)
          × (t.lua_functions ≡ s.lua_functions ++ filter a.add_lua_function lua_names)
          × (t.phandle ≡ some handle)
          × (c : SessionController S (hypr_ports D)) × (t.controller ≡ some c)
          × IsValid c
          × (capacity c ≡ S.capacity a.fresh))
        ⊎ (¬ (o ≡ returned described)
            × IsTornDown D S H t
            × (before : List String) × (text : String) × (t.errors ≡ before ++ text ∷ []))
  unfolding plugin_init
  plugin_init_outcome a handle s v free heard =
      let s' : State D S H = record s { phandle = some handle } in
      elim (Bool-cases (hash_ok a.hash a.client_hash)) [
        | inl ok ↦
            caught-cases a handle s (initialise D S H a s').0 (initialise D S H a s').1
              (initialise-Post D S H (S.capacity a.fresh) (some handle) s.dispatchers
                s.lua_functions a s' v free refl (heard, refl, refl, refl))
              ok
        | inr bad ↦ rw (initialise-mismatch a s' bad) (
            inr (
              (λ e. cc),
              notify-IsTornDown _ _ (teardown-IsTornDown D S H s'),
              (teardown D S H s').errors,
              _,
              refl,
            ))
      ]

  teardown-jobs :
      (s : State D S H) (c : SessionController S (hypr_ports D))
      → s.controller ≡ some c
      → IsValid c
      → (j : ℕ) → S.job (teardown D S H s).scheduler j ≡ none
  unfolding teardown
  teardown-jobs s c e v j = rw (e, teardown) (teardown_state-jobs D S c v j)

  -- PLUGIN_EXIT resets the controller, the listeners, the slots, the socket, the configuration and the
  -- handle.
  pub plugin_exit-IsTornDown :
      (s : State D S H)
      → IsTornDown D S H (plugin_exit D S H s) × ((plugin_exit D S H s).phandle ≡ none)
  unfolding plugin_exit
  plugin_exit-IsTornDown s =
      let t = teardown-IsTornDown D S H s in
      (
        record {
          no_controller = t.no_controller;
          no_listeners = t.no_listeners;
          no_slots = t.no_slots;
          no_socket = t.no_socket;
          config = t.config;
        },
        refl,
      )

  -- Of a valid controller, PLUGIN_EXIT leaves no job in the scheduler.
  pub plugin_exit-jobs :
      (s : State D S H) (c : SessionController S (hypr_ports D))
      → s.controller ≡ some c
      → IsValid c
      → (j : ℕ) → S.job (plugin_exit D S H s).scheduler j ≡ none
  unfolding plugin_exit
  plugin_exit-jobs s c e v = teardown-jobs s c e v
