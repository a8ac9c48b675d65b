-- ===== src/PluginEntry/Reload.antt =====
-- A reload of the configuration, from the values of the host to the controller.
use mru_switcher.Prelude.{
  ℕ, ◌≤◌, ◌≡◌, refl, sym, ◌∙◌, ap, false, some, arith, Option-cases, inl, inr, pos, negsuc, less,
  min,
}
use mru_switcher.Scheduler.{SchedulerPort}
use mru_switcher.History
use mru_switcher.History.Invariant as Tracker
use mru_switcher.Config.{PluginConfig}
use mru_switcher.Sidecar.{apply_overlay}
use mru_switcher.Sidecar.Range.{InRange, apply_overlay-InRange}
use mru_switcher.Source.{Desktop}
use mru_switcher.Source.Answer.{hypr_ports}
use mru_switcher.Session.Defs.{SessionController}
use mru_switcher.Session.Apply.{set_policy}
use mru_switcher.Session.Invariant.{IsValid}
use mru_switcher.Facade.{try_start_overlay_socket}
use mru_switcher.Plugin.{policy_from_config, to_uint32}
use mru_switcher.Events.{on_reload}
use mru_switcher.HostConfig.{Host, Values, int, read_config}
use mru_switcher.HostConfig.Register.{registrations}
use mru_switcher.HostConfig.Register.Laws.{fill}
use mru_switcher.HostConfig.Range.{IsTyped, Settled, read_config-fill}
use mru_switcher.HostConfig.Calls.{returned}
use mru_switcher.PluginEntry.{
  PluginState, Answers, read_values, set_config, parsed, apply_sidecar_overlay, start_overlay,
}
use mru_switcher.PluginEntry.Listening.{overlay_reload, reload_controller, config_reloaded}

to_uint32_small : (n : ℕ) → n ≤ 5000 → to_uint32 (pos n) ≡ n
to_uint32_small n h = ground arith

min_small : (n : ℕ) → n ≤ 5000 → min n 5000 ≡ n
min_small n h = omega arith

module _ (D : Desktop) (S : SchedulerPort) (H : Host) where
  -- The steps of the listener, once the values are read.
  abbrev pub after_read : Answers D S H → PluginConfig → PluginState D S H → PluginState D S H
  after_read a cfg st =
      start_overlay D S H a
        (reload_controller D S H (overlay_reload D S H a (set_config D S H cfg st)))

  pub config_reloaded-returned :
      (a : Answers D S H) (st : PluginState D S H) (cfg : PluginConfig)
      → (read_config H st.host st.config_v2 st.notices).0 ≡ returned cfg
      → config_reloaded D S H a st
        ≡ after_read a cfg
            (record st { notices = (read_config H st.host st.config_v2 st.notices).1 })
  unfolding config_reloaded read_values
  config_reloaded-returned a st cfg e = rw e refl

  start_overlay-config :
      (a : Answers D S H) (st : PluginState D S H)
      → (start_overlay D S H a st).facade.config ≡ st.facade.config
  unfolding start_overlay try_start_overlay_socket
  start_overlay-config a st = elim (Option-cases st.facade.overlay_socket) [
    | inl e ↦ rw (e, start_overlay, try_start_overlay_socket) refl
    | inr (v, e) ↦ rw (e, start_overlay, try_start_overlay_socket) refl
  ]

  pub on_reload-IsValid :
      (cfg : PluginConfig) (c : SessionController S (hypr_ports D))
      → IsValid c
      → IsValid (on_reload D S cfg c)
  unfolding on_reload set_policy History.set_debounce_ms
  on_reload-IsValid cfg c v = record {
    tracker_valid = Tracker.set_debounce_ms-IsValid S v.tracker_valid (to_uint32 cfg.debounce_ms);
    locked = v.locked;
    selected = v.selected;
  }

  -- The configuration after the second file, and the state with the controller that took it.
  abbrev pub overlaid : Answers D S H → PluginConfig → PluginConfig
  overlaid a cfg = (apply_overlay a.finite_double (parsed D S H a).overrides cfg).0

  abbrev pub taken :
      Answers D S H
      → PluginConfig
      → SessionController S (hypr_ports D)
      → PluginState D S H
      → PluginState D S H
  taken a cfg c st = record (overlay_reload D S H a (set_config D S H cfg st)) {
    controller = some (on_reload D S (overlaid a cfg) c);
  }

  pub after_read-eq :
      (a : Answers D S H) (cfg : PluginConfig) (st : PluginState D S H)
      (c : SessionController S (hypr_ports D))
      → st.controller ≡ some c
      → after_read a cfg st ≡ start_overlay D S H a (taken a cfg c st)
  unfolding reload_controller overlay_reload apply_sidecar_overlay
  after_read-eq a cfg st c e = rw (e, reload_controller) refl

  abbrev Follows :
      SessionController S (hypr_ports D) → PluginState D S H → PluginState D S H → Type 0
  Follows c st t =
      InRange t.facade.config
      × (t.errors ≡ st.errors)
      × (d : SessionController S (hypr_ports D)) × (t.controller ≡ some d)
      × IsValid d
      × (d.policy ≡ policy_from_config t.facade.config)
      × (t.facade.config.debounce_ms ≡ pos d.tracker.debounce_ms)
      × (d.snapshot ≡ c.snapshot)
      × (d.index ≡ c.index)
      × (d.snapshot_policy ≡ c.snapshot_policy)

  on_reload-debounce :
      (cfg : PluginConfig) (c : SessionController S (hypr_ports D))
      → InRange cfg
      → cfg.debounce_ms ≡ pos (on_reload D S cfg c).tracker.debounce_ms
  unfolding on_reload set_policy History.set_debounce_ms
  on_reload-debounce cfg c u =
      let (n, e, l) = u.debounce in
      e
      ∙ ap pos (
          sym (
            ap (λ z. min (to_uint32 z) 5000) e
            ∙ ap (λ k. min k 5000) (to_uint32_small n l)
            ∙ min_small n l))

  start-Follows :
      (a : Answers D S H) (cfg : PluginConfig) (st s : PluginState D S H)
      (c : SessionController S (hypr_ports D))
      → s.facade.config ≡ cfg
      → s.controller ≡ some (on_reload D S cfg c)
      → s.errors ≡ st.errors
      → InRange cfg
      → IsValid c
      → Follows c st (start_overlay D S H a s)
  unfolding on_reload set_policy History.set_debounce_ms start_overlay
  start-Follows a cfg st s c e f g u v =
      let k = start_overlay-config a s ∙ e in
      (
        rw k u,
        g,
        on_reload D S cfg c,
        f,
        on_reload-IsValid cfg c v,
        ap policy_from_config (sym k),
        rw k (on_reload-debounce cfg c u),
        refl,
        refl,
        refl,
      )

  after_read-Follows :
      (a : Answers D S H) (cfg : PluginConfig) (st : PluginState D S H)
      (c : SessionController S (hypr_ports D))
      → st.controller ≡ some c
      → InRange cfg
      → IsValid c
      → Follows c st (after_read a cfg st)
  unfolding overlay_reload apply_sidecar_overlay
  after_read-Follows a cfg st c e u v = rw (after_read-eq a cfg st c e) (
      start-Follows a (overlaid a cfg) st (taken a cfg c st) c refl refl refl
        (apply_overlay-InRange a.finite_double (parsed D S H a).overrides cfg u) v)

  -- A reload, once the host has taken the values and while the size of the border that it holds is
  -- between -1 and 100: the configuration is then in range whatever the host and the second file say;
  -- the controller stays valid, has the policy and the debounce of that configuration, the number not
  -- changed by the conversion; an active session keeps its list, its index and the policy that it
  -- started with; and no error is notified.
  pub config_reloaded-Follows :
      (a : Answers D S H) (st : PluginState D S H) (c : SessionController S (hypr_ports D))
      (out : Values H)
      → IsTyped H
      → st.config_v2 ≡ fill H (registrations H) out
      → ((v : H.Value int)
          → st.config_v2.border_size ≡ some v
          → (less (H.value v st.host) (negsuc 0) ≡ false)
            × (less (pos 100) (H.value v st.host) ≡ false))
      → st.controller ≡ some c
      → IsValid c
      → let t = config_reloaded D S H a st in
        InRange t.facade.config
        × (t.errors ≡ st.errors)
        × (d : SessionController S (hypr_ports D)) × (t.controller ≡ some d)
        × IsValid d
        × (d.policy ≡ policy_from_config t.facade.config)
        × (t.facade.config.debounce_ms ≡ pos d.tracker.debounce_ms)
        × (d.snapshot ≡ c.snapshot)
        × (d.index ≡ c.index)
        × (d.snapshot_policy ≡ c.snapshot_policy)
  config_reloaded-Follows a st c out typed registered small e v =
      let (cfg, w, f, g, within) : Settled H st.host st.config_v2
          (read_config H st.host st.config_v2 st.notices).0 =
        rw registered (read_config-fill H typed st.host out st.notices) in
      let (low, high) = small w g in
      rw (config_reloaded-returned a st cfg f) (
        after_read-Follows a cfg
          (record st { notices = (read_config H st.host st.config_v2 st.notices).1 }) c e
          (within low high) v)
