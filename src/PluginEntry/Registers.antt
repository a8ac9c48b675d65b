-- ===== src/PluginEntry/Registers.antt =====
-- The loops of src/plugin/plugin_events.cpp and the registration of the dispatchers and of the Lua
-- functions.
use Prim.Native.String.{String}
use mru_switcher.Prelude.{
  ℕ, ◌≡◌, refl, sym, ◌∙◌, ap, inl, inr, Bool, true, List, [], ◌∷◌, ◌++◌, Option, none, some,
  if_cases, subst, Option-cases, Bool-cases, if◌then◌else◌, filter, arith,
}
use mathlib.Core.List.{append_assoc, append-nil}
use mru_switcher.Scheduler.{SchedulerPort}
use mru_switcher.Source.{Desktop}
use mru_switcher.Source.Answer.{hypr_ports}
use mru_switcher.Session.Defs.{SessionController}
use mru_switcher.Session.Invariant.{IsValid, capacity}
use mru_switcher.HostConfig.{Host}
use mru_switcher.HostConfig.Calls.{Thrown, Post, bind-Post, Post-map, ◌>>◌}
use mru_switcher.PluginEntry.{
  events, PluginState, Answers, each, subscribe_events, add_listener, add_dispatcher_name,
  add_lua_name, dispatcher_names, lua_names, register_dispatchers, register_lua_functions,
}

filter-step :
    (p : String → Bool) (n : String) (ns : List String)
    → (if p n then n ∷ [] else []) ++ filter p ns ≡ filter p (n ∷ ns)
filter-step p n ns = ground arith

module _ (D : Desktop) (S : SchedulerPort) (H : Host) where
  abbrev State : Type 0
  State = PluginState D S H

  -- Of a controller that starts with this many job ids, in a plugin that the host gave this handle,
  -- where these dispatchers and Lua functions were there before.
  module _ (room : ℕ) (handle : Option ℕ) (ds fs : List String) where
    -- What every call of `initialise` that returns has established.
    abbrev pub IsBuilt : State → Type 0
    IsBuilt st =
        (c : SessionController S (hypr_ports D)) × (st.controller ≡ some c)
        × IsValid c
        × (capacity c ≡ room)

    -- Nothing is listened to or registered yet.
    abbrev pub IsUnheard : State → Type 0
    IsUnheard st =
        (st.listeners ≡ [])
        × (st.dispatchers ≡ ds)
        × (st.lua_functions ≡ fs)
        × (st.phandle ≡ handle)

    -- The names are those from before and these, and the property holds.
    abbrev Appended : (State → Type 0) → (State → List String) → List String → State → Type 0
    Appended Q names_in names t = (names_in t ≡ names) × Q t

    -- A loop that adds the names that are taken to a list of the state, and keeps a property.
    each-appends :
        (Q : State → Type 0) (names_in : State → List String) (throws : String → Option Thrown)
        (taken : String → Bool) (keep : String → State → State)
        → ((n : String) (s : State)
            → names_in (keep n s) ≡ names_in s ++ (if taken n then n ∷ [] else []))
        → ((n : String) (s : State) → Q s → Q (keep n s))
        → (ns before : List String) (s : State) → names_in s ≡ before
        → Q s
        → Post (Appended Q names_in (before ++ filter taken ns)) (each D S H throws keep ns s)
    unfolding each
    each-appends Q names_in throws taken keep adds keeps [] before s e q =
        (e ∙ sym (append-nil before), q)
    each-appends Q names_in throws taken keep adds keeps (n ∷ ns) before s e q =
        elim (Option-cases (throws n)) [
          | inl f ↦
              rw (f, each)
                (subst
                  (λ l. Post (λ t. (names_in t ≡ l) × Q t) (each D S H throws keep ns (keep n s)))
                  (append_assoc before (if taken n then n ∷ [] else []) (filter taken ns)
                    ∙ ap (λ l. before ++ l) (filter-step taken n ns))
                  (each-appends Q names_in throws taken keep adds keeps ns
                    (before ++ (if taken n then n ∷ [] else [])) (keep n s)
                    (adds n s ∙ ap (λ l. l ++ (if taken n then n ∷ [] else [])) e) (keeps n s q)))
          | inr (x, f) ↦ rw (f, each) tt
        ]

    -- Every event is listened to and every dispatcher registered, in order, and so is each function of
    -- Lua that the host takes.
    abbrev pub IsReady : Answers D S H → State → Type 0
    IsReady a t =
        (t.listeners ≡ events)
        × (t.dispatchers ≡ ds ++ dispatcher_names)
        × (t.lua_functions ≡ fs ++ filter a.add_lua_function lua_names)
        × (t.phandle ≡ handle)
        × IsBuilt t

    -- What a registration of a function of Lua leaves as it was.
    abbrev IsSettled : State → Type 0
    IsSettled t =
        (t.dispatchers ≡ ds ++ dispatcher_names)
        × (t.listeners ≡ events)
        × (t.phandle ≡ handle)
        × IsBuilt t

    -- What the listeners leave as it was.
    abbrev IsQuiet : State → Type 0
    IsQuiet t = (t.dispatchers ≡ ds) × (t.lua_functions ≡ fs) × (t.phandle ≡ handle) × IsBuilt t

    subscribe_events-Post :
        (a : Answers D S H) (s : State)
        → IsUnheard s
        → IsBuilt s
        → Post (Appended IsQuiet (λ t. t.listeners) events) (subscribe_events D S H a s)
    unfolding subscribe_events
    subscribe_events-Post a s (l, d, f, h) b =
        each-appends IsQuiet (λ t. t.listeners) a.listen (λ n. true) (add_listener D S H)
          (λ n t. refl) (λ n t q. q) events [] s l (d, f, h, b)

    -- What the dispatchers leave as it was.
    abbrev IsHeard : State → Type 0
    IsHeard t = (t.listeners ≡ events) × (t.lua_functions ≡ fs) × (t.phandle ≡ handle) × IsBuilt t

    register_dispatchers-Post :
        (a : Answers D S H) (s : State)
        → s.dispatchers ≡ ds
        → IsHeard s
        → Post
            (Appended IsHeard (λ t. t.dispatchers) (ds ++ dispatcher_names))
            (register_dispatchers D S H a s)
    unfolding register_dispatchers
    register_dispatchers-Post a s d q =
        each-appends IsHeard (λ t. t.dispatchers) a.add_dispatcher (λ n. true)
          (add_dispatcher_name D S H) (λ n t. refl) (λ n t r. r) dispatcher_names ds s d q

    add_lua_name-adds :
        (taken : String → Bool) (n : String) (s : State)
        → (add_lua_name D S H taken n s).lua_functions
          ≡ s.lua_functions ++ (if taken n then n ∷ [] else [])
    add_lua_name-adds taken n s = elim (Bool-cases (taken n)) [
      | inl e ↦ rw e refl
      | inr e ↦ rw e (sym (append-nil s.lua_functions))
    ]

    register_lua_functions-Post :
        (a : Answers D S H) (s : State)
        → s.lua_functions ≡ fs
        → IsSettled s
        → Post
            (Appended IsSettled (λ t. t.lua_functions) (fs ++ filter a.add_lua_function lua_names))
            (register_lua_functions D S H a s)
    unfolding register_lua_functions
    register_lua_functions-Post a s f q =
        each-appends IsSettled (λ t. t.lua_functions) (λ n. none) a.add_lua_function
          (add_lua_name D S H a.add_lua_function) (add_lua_name-adds a.add_lua_function)
          (λ n t r.
            if_cases IsSettled (a.add_lua_function n)
              {x = record t { lua_functions = t.lua_functions ++ n ∷ [] }} {y = t} (λ _. r)
              (λ _. r))
          lua_names fs s f q

    then_registered :
        (a : Answers D S H) (s : State)
        → Appended IsQuiet (λ t. t.listeners) events s
        → Post (IsReady a) ((register_dispatchers D S H a >> register_lua_functions D S H a) s)
    then_registered a s (l, (d, f, h, b)) =
        bind-Post (Appended IsHeard (λ t. t.dispatchers) (ds ++ dispatcher_names)) (IsReady a)
          (register_dispatchers D S H a) _ s (register_dispatchers-Post a s d (l, f, h, b))
          λ _ t (d', (l', f', h', b')).
            Post-map
              (Appended IsSettled (λ u. u.lua_functions)
                (fs ++ filter a.add_lua_function lua_names))
              (IsReady a) (register_lua_functions D S H a t)
              (λ u (lua, (e, m, i, c)). (m, e, lua, i, c))
              (register_lua_functions-Post a t f' (d', l', h', b'))

    pub then_listening :
        (a : Answers D S H) (s : State)
        → IsUnheard s × IsBuilt s
        → Post (IsReady a) (
            (subscribe_events D S H a
                >> (register_dispatchers D S H a >> register_lua_functions D S H a))
              s)
    then_listening a s (p, b) =
        bind-Post (Appended IsQuiet (λ t. t.listeners) events) (IsReady a)
          (subscribe_events D S H a) _ s (subscribe_events-Post a s p b)
          λ _ t q. then_registered a t q
