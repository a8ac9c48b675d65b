-- ===== src/HostConfig/Register.antt =====
-- The registration of the values with the host.
pub mod Laws
use Prim.Native.String.{String, ◌++◌ as str_append}
use mru_switcher.Prelude.{
  Bool, true, false, List, [], ◌∷◌, Option, none, some, pos, negsuc, if◌then◌else◌,
}
use mru_switcher.HostConfig.{ValueType, int, string, bool, float, Carrier, Host, Values}

module _ (H : Host) where
  pub record Registration : Type 0 where
    pub type : ValueType
    pub key : String
    pub description : String
    pub default : Carrier H.Float type
    pub assign : H.Value type → Values H → Values H

  -- The keys in the order in which they are offered to the host.
  abbrev pub registrations : List (Registration)
  registrations =
      record {
        type = int;
        key = "plugin:mru-switcher:debounce_ms";
        description = "Debounce before MRU commits the focus change (ms); 0 = immediate";
        default = pos 400;
        assign = λ v out. record out { debounce_ms = some v };
      }
      ∷ record {
        type = string;
        key = "plugin:mru-switcher:default_scope";
        description = "Default scope for mru:cycle: global | monitor | workspace | visible | app";
        default = "global";
        assign = λ v out. record out { default_scope = some v };
      }
      ∷ record {
        type = string;
        key = "plugin:mru-switcher:start_offset";
        description = "Selection start offset: first | second";
        default = "second";
        assign = λ v out. record out { start_offset = some v };
      }
      ∷ record {
        type = bool;
        key = "plugin:mru-switcher:wrap";
        description = "Wrap the selection at list ends";
        default = true;
        assign = λ v out. record out { wrap = some v };
      }
      ∷ record {
        type = string;
        key = "plugin:mru-switcher:ui";
        description = "UI backend: null | border | external (ADR-025 default)";
        default = "border";
        assign = λ v out. record out { ui = some v };
      }
      ∷ record {
        type = string;
        key = "plugin:mru-switcher:border_style";
        description =
            "Border highlight style: solid | pulse (colour throb) | dim (focus-assist); unknown = solid (REQ-UI-007)";
        default = "solid";
        assign = λ v out. record out { border_style = some v };
      }
      ∷ record {
        type = string;
        key = "plugin:mru-switcher:border_color";
        description = "Border highlight colour (hex 0xAARRGGBB or rgb()/rgba()) (REQ-UI-008)";
        default = "0xffffd9a0";
        assign = λ v out. record out { border_color = some v };
      }
      ∷ record {
        type = int;
        key = "plugin:mru-switcher:border_size";
        description =
            "Border size override; -1 = do not change the window border size (REQ-UI-008)";
        default = negsuc 0;
        assign = λ v out. record out { border_size = some v };
      }
      ∷ record {
        type = bool;
        key = "plugin:mru-switcher:selection_follow_workspace";
        description =
            "ui=border: keep the selected window visible by elevating its workspace during the session (no window focus); false = legacy off-screen highlight (ADR-026)";
        default = true;
        assign = λ v out. record out { selection_follow_workspace = some v };
      }
      ∷ record {
        type = int;
        key = "plugin:mru-switcher:pulse_period_ms";
        description =
            "Border style `pulse` full-cycle period in ms, clamped to [200, 10000] (ADR-028)";
        default = pos 1000;
        assign = λ v out. record out { pulse_period_ms = some v };
      }
      ∷ record {
        type = float;
        key = "plugin:mru-switcher:dim_alpha";
        description =
            "Border style `dim` alpha for non-selected windows, clamped to [0.0, 1.0]; >=1 disables (ADR-028)";
        default = H.float_of "0.7";
        assign = λ v out. record out { dim_alpha = some v };
      }
      ∷ record {
        type = bool;
        key = "plugin:mru-switcher:lock_history_on_session";
        description =
            "Reserved and ignored: MRU history is always locked while a session is active (REQ-H-010)";
        default = true;
        assign = λ v out. record out { lock_history_on_session = some v };
      }
      ∷ record {
        type = bool;
        key = "plugin:mru-switcher:restore_focus_on_cancel";
        description = "On cancel, refocus the window that was focused at session start";
        default = false;
        assign = λ v out. record out { restore_focus_on_cancel = some v };
      }
      ∷ record {
        type = string;
        key = "plugin:mru-switcher:external_socket";
        description = "External UI protocol AF_UNIX socket path (ui=external; ADR-018)";
        default = "";
        assign = λ v out. record out { external_socket = some v };
      }
      ∷ []

  abbrev pub made : (r : Registration) → H.Value r.type
  made r = H.make_config_value r.type r.key r.description r.default

  abbrev pub rejection : String → String
  rejection key =
      str_append "host rejected config value '"
        (str_append key "' (name collision: already registered)")

  -- The slot is set whether or not the host takes the value; the first refusal ends it.
  unfoldable pub register_from :
      List (Registration) → H.State → Values H → (H.State × Values H) × Option String
  register_from [] h out = ((h, out), none)
  register_from (r ∷ rs) h out =
      let (h', taken) = H.add_config_value (made r) h in
      let out' = r.assign (made r) out in
      let rest = register_from rs h' out' in
      if taken then rest else ((h', out'), some (rejection r.key))

  unfoldable pub register_all : H.State → Values H → (H.State × Values H) × Option String
  unfolding register_from
  register_all h out = register_from registrations h out
