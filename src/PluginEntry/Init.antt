-- ===== src/PluginEntry/Init.antt =====
-- What the initialisation in src/plugin/mru_plugin.cpp has done when it returns.
use Prim.Native.String.{String}
use mru_switcher.Prelude.{ℕ, ◌≡◌, refl, ◌∙◌, List, Option, none, some, if_cases}
use mru_switcher.Scheduler.{SchedulerPort}
use mru_switcher.Source.{Desktop}
use mru_switcher.Plugin.Life.{build_state-IsValid, build_state-capacity}
use mru_switcher.HostConfig.{Host, Values, read_config}
use mru_switcher.HostConfig.Register.{register_all}
use mru_switcher.HostConfig.Calls.{Call, Post, bind-Post, Post-any}
use mru_switcher.PluginEntry.{
  hash_ok, PluginState, Answers, make_controller, start_overlay, new_socket, set_config, check_hash,
  register_values, unless_rejected, load_state, read_values, make_members, overlay_load, initialise,
}
use mru_switcher.PluginEntry.Registers as Registers

module _ (D : Desktop) (S : SchedulerPort) (H : Host) where
  abbrev State : Type 0
  State = PluginState D S H

  -- Of a controller that starts with this many job ids, in a plugin that the host gave this handle,
  -- where these dispatchers and Lua functions were there before.
  module _ (room : ℕ) (handle : Option ℕ) (ds fs : List String) where
    abbrev IsBuilt : State → Type 0
    IsBuilt = Registers.IsBuilt D S H room handle ds fs

    abbrev IsUnheard : State → Type 0
    IsUnheard = Registers.IsUnheard D S H room handle ds fs

    abbrev IsReady : Answers D S H → State → Type 0
    IsReady = Registers.IsReady D S H room handle ds fs

    check_hash-Post :
        (a : Answers D S H) (P : State → Type 0) (s : State) → P s → Post P (check_hash D S H a s)
    unfolding check_hash
    check_hash-Post a P s p =
        if_cases (λ (m : Call State Unit). Post P (m s)) (hash_ok a.hash a.client_hash) (λ e. p)
          (λ e. tt)

    register_values-Post : (s : State) → IsUnheard s → Post IsUnheard (register_values D S H s)
    unfolding register_values
    register_values-Post s p = of_answer (register_all H s.host s.config_v2)
      where
        of_answer :
            (r : (H.State × Values H) × Option String)
            → Post IsUnheard
                (unless_rejected D S H r.1 (record s { host = r.0.0; config_v2 = r.0.1 }))
        of_answer ((h, values), none) = p
        of_answer ((h, values), some reg_err) = tt

    read_values-Post : (s : State) → IsUnheard s → Post IsUnheard (read_values D S H s)
    unfolding read_values
    read_values-Post s p = Post-any IsUnheard (read_config H s.host s.config_v2 s.notices).0 _ p

    make_controller-IsBuilt :
        (a : Answers D S H) (s : State)
        → S.IsValid a.fresh
        → ((j : ℕ) → S.job a.fresh j ≡ none)
        → S.capacity a.fresh ≡ room
        → IsBuilt (make_controller D S H a s)
    unfolding make_controller
    make_controller-IsBuilt a s v free full = (
      _,
      refl,
      build_state-IsValid D S s.facade.config a.fresh s.world v free,
      build_state-capacity D S s.facade.config a.fresh s.world ∙ full,
    )

    make_members-IsBuilt :
        (a : Answers D S H) (s : State)
        → S.IsValid a.fresh
        → ((j : ℕ) → S.job a.fresh j ≡ none)
        → S.capacity a.fresh ≡ room
        → IsBuilt (make_members D S H a s)
    unfolding make_members
    make_members-IsBuilt a s v free full =
        make_controller-IsBuilt a
          (start_overlay D S H a
            (record s { facade = record s.facade { overlay_socket = some new_socket } }))
          v free full

    load_state-Post :
        (a : Answers D S H) (s : State)
        → S.IsValid a.fresh
        → ((j : ℕ) → S.job a.fresh j ≡ none)
        → S.capacity a.fresh ≡ room
        → IsUnheard s
        → Post (λ t. IsUnheard t × IsBuilt t) (load_state D S H a s)
    unfolding load_state make_members overlay_load
    load_state-Post a s v free full p =
        bind-Post IsUnheard _ (read_values D S H) _ s (read_values-Post s p) λ cfg t q.
          (q, make_members-IsBuilt a (overlay_load D S H a (set_config D S H cfg t)) v free full)

    pub initialise-Post :
        (a : Answers D S H) (s : State)
        → S.IsValid a.fresh
        → ((j : ℕ) → S.job a.fresh j ≡ none)
        → S.capacity a.fresh ≡ room
        → IsUnheard s
        → Post (IsReady a) (initialise D S H a s)
    unfolding initialise
    initialise-Post a s v free full p =
        bind-Post IsUnheard (IsReady a) (check_hash D S H a) _ s (check_hash-Post a IsUnheard s p)
          λ _ s1 p1.
            bind-Post IsUnheard (IsReady a) (register_values D S H) _ s1
              (register_values-Post s1 p1)
              λ _ s2 p2.
                bind-Post (λ t. IsUnheard t × IsBuilt t) (IsReady a) (load_state D S H a) _ s2
                  (load_state-Post a s2 v free full p2)
                  λ _ s3 p3. Registers.then_listening D S H room handle ds fs a s3 p3
