-- ===== src/PluginEntry/ReloadKeeps.antt =====
-- A reload keeps the controller valid, whatever it reads.
use mru_switcher.Prelude.{◌≤◌, ◌≡◌, refl, ap, ◌∙◌, some, arith, inl, inr}
use mru_switcher.Scheduler.{SchedulerPort}
use mru_switcher.History
use mru_switcher.Config.{PluginConfig}
use mru_switcher.Source.{Desktop}
use mru_switcher.Source.Answer.{hypr_ports}
use mru_switcher.Session.Defs.{SessionController}
use mru_switcher.Session.Apply.{set_policy}
use mru_switcher.Session.Invariant.{IsValid, capacity}
use mru_switcher.Events.{on_reload}
use mru_switcher.HostConfig.{Host, read_config}
use mru_switcher.HostConfig.Calls.{Outcome-cases, Thrown, exception, unknown, threw}
use mru_switcher.PluginEntry.{PluginState, Answers, read_values, start_overlay}
use mru_switcher.PluginEntry.Listening.{config_reloaded, guarded_listener}
use mru_switcher.PluginEntry.Reload.{
  after_read, overlaid, after_read-eq, on_reload-IsValid, config_reloaded-returned,
}

module _ (D : Desktop) (S : SchedulerPort) (H : Host) where
  guarded-controller :
      (x : Thrown) (st : PluginState D S H)
      → (guarded_listener D S H "config.reloaded" (threw x, st)).controller ≡ st.controller
  guarded-controller (exception what) st = refl
  guarded-controller unknown st = refl

  config_reloaded-threw :
      (a : Answers D S H) (st : PluginState D S H) (c : SessionController S (hypr_ports D))
      (x : Thrown)
      → (read_config H st.host st.config_v2 st.notices).0 ≡ threw x
      → st.controller ≡ some c
      → IsValid c
      → (d : SessionController S (hypr_ports D)) × ((config_reloaded D S H a st).controller
          ≡ some d)
        × IsValid d
        × (capacity c ≤ capacity d)
  unfolding config_reloaded read_values
  config_reloaded-threw a st c x f e v =
      let n = (read_config H st.host st.config_v2 st.notices).1 in
      rw f (c, guarded-controller x (record st { notices = n }) ∙ e, v, omega arith)

  reload-capacity :
      (cfg : PluginConfig) (c : SessionController S (hypr_ports D))
      → capacity (on_reload D S cfg c) ≡ capacity c
  unfolding on_reload set_policy History.set_debounce_ms
  reload-capacity cfg c = refl

  abbrev KeepsController : SessionController S (hypr_ports D) → PluginState D S H → Type 0
  KeepsController c t =
      (d : SessionController S (hypr_ports D)) × (t.controller ≡ some d)
      × IsValid d
      × (capacity c ≤ capacity d)

  after_read-controller :
      (a : Answers D S H) (cfg : PluginConfig) (st : PluginState D S H)
      (c : SessionController S (hypr_ports D))
      → st.controller ≡ some c
      → IsValid c
      → KeepsController c (after_read D S H a cfg st)
  unfolding start_overlay
  after_read-controller a cfg st c e v = (
    on_reload D S (overlaid D S H a cfg) c,
    ap (λ t. t.controller) (after_read-eq D S H a cfg st c e),
    on_reload-IsValid D S H (overlaid D S H a cfg) c v,
    omega (arith, reload-capacity (overlaid D S H a cfg) c),
  )

  -- Whatever a reload reads, and if a read throws, the controller stays valid.
  pub config_reloaded-controller :
      (a : Answers D S H) (st : PluginState D S H) (c : SessionController S (hypr_ports D))
      → st.controller ≡ some c
      → IsValid c
      → (d : SessionController S (hypr_ports D)) × ((config_reloaded D S H a st).controller
          ≡ some d)
        × IsValid d
        × (capacity c ≤ capacity d)
  config_reloaded-controller a st c e v =
      let n = (read_config H st.host st.config_v2 st.notices).1 in
      elim (Outcome-cases (read_config H st.host st.config_v2 st.notices).0) [
        | inl (cfg, f) ↦
            rw (config_reloaded-returned D S H a st cfg f)
              (after_read-controller a cfg (record st { notices = n }) c e v)
        | inr (x, f) ↦ config_reloaded-threw a st c x f e v
      ]
