-- ===== src/PluginEntry/Sinks.antt =====
-- The second configuration file over the first, with its warnings: `apply_sidecar_overlay` of
-- src/plugin/plugin_lifecycle.cpp and of src/plugin/plugin_events.cpp.
use Prim.Native.String.{String}
use mru_switcher.Prelude.{Bool, true, List, [], ◌∷◌, ◌++◌, if◌then◌else◌}
use mru_switcher.Config.{PluginConfig}
use mru_switcher.Sidecar.{apply_overlay}
use mru_switcher.Sidecar.Parse.{SidecarParse}

-- `sidecar_warn` with its static, and `sidecar_warn_load` with another.
pub record Sink : Type 0 where
  pub warned : Bool
  pub notifications : List String

unfoldable pub sidecar_warn : String → Sink → Sink
sidecar_warn msg k =
    if k.warned then k else record { warned = true; notifications = k.notifications ++ msg ∷ [] }

unfoldable pub sidecar_warns : List String → Sink → Sink
unfolding sidecar_warn
sidecar_warns [] k = k
sidecar_warns (msg ∷ msgs) k = sidecar_warns msgs (sidecar_warn msg k)

-- `if (!warnings.empty()) sidecar_warn(warnings.front())`
unfoldable pub sidecar_warn_front : List String → Sink → Sink
unfolding sidecar_warn
sidecar_warn_front [] k = k
sidecar_warn_front (msg ∷ msgs) k = sidecar_warn msg k

unfoldable pub apply_sidecar_overlay :
    (String → Bool) → SidecarParse → PluginConfig → Sink → PluginConfig × Sink
unfolding sidecar_warns sidecar_warn_front apply_overlay
apply_sidecar_overlay finite_double parsed cfg k =
    let (cfg', ws) = apply_overlay finite_double parsed.overrides cfg in
    (cfg', sidecar_warn_front parsed.warnings (sidecar_warns ws k))
