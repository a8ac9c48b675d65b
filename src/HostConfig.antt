-- ===== src/HostConfig.antt =====
-- src/plugin/config_v2.cpp and config_v2.hpp: the values that the plugin registers with the host, and
-- what it reads from them. The host is a parameter. A slot is a pointer to a value of the host; the
-- null pointer is `none`.
pub mod Calls
pub mod Register
pub mod Warnings
pub mod Range
use Prim.Native.String.{String, ◌++◌ as str_append}
use mru_switcher.Prelude.{
  ℕ, ◌-◌, ◌^◌, Bool, true, false, not, ◌&&◌, List, [], ◌∷◌, ◌++◌, Option, none, some, if◌then◌else◌,
  ltb, ℤ, pos, negsuc,
}
use mru_switcher.Config.{
  PluginConfig, UiKind, null_ui, border_ui, external_ui, parse_scope, parse_start_offset,
  parse_ui_backend, parse_border_style, clamp_debounce_ms, clamp_pulse_period_ms,
}
use mru_switcher.Plugin.{to_uint32}
use mru_switcher.HostConfig.Calls.{Call, pure, throw, modify, ◌>>=◌, ◌>>◌}

-- `Config::Values::Int`, `String`, `Bool` and `Float`.
pub data ValueType : Type 0 where
  int string bool float : ValueType

abbrev pub type_eq : ValueType → ValueType → Bool
type_eq int int = true
type_eq string string = true
type_eq bool bool = true
type_eq float float = true
type_eq _ _ = false

-- The type that a value of the host is read with.
abbrev pub Carrier : Type 0 → ValueType → Type 0
Carrier Float int = ℤ
Carrier Float string = String
Carrier Float bool = Bool
Carrier Float float = Float

-- What the plugin asks of the host: to make a value, to add it, which may be refused, and to read it.
pub record Host : Type 1 where
  pub State : Type 0
  pub Float : Type 0
  pub float_of : String → Float
  pub Value : ValueType → Type 0
  pub make_config_value : (t : ValueType) → String → String → Carrier Float t → Value t
  pub add_config_value : {t : ValueType} → Value t → State → State × Bool
  pub underlying : {t : ValueType} → Value t → ValueType
  pub name : {t : ValueType} → Value t → String
  pub value : {t : ValueType} → Value t → State → Carrier Float t

-- The statics of `read_config` and the texts of the notifications.
pub record Notices : Type 0 where
  pub lock_warned : Bool
  pub style_warned : Bool
  pub notifications : List String

abbrev pub lock_notice : String
lock_notice =
    "mru-switcher: lock_history_on_session is reserved and ignored - MRU lock-in is always on while switching (see docs/USER.md)"

abbrev pub style_notice : String
style_notice = "mru-switcher: unknown border_style, using solid (REQ-UI-007)"

unfoldable pub warn_lock : Bool → Notices → Notices
warn_lock lock n =
    if not lock && not n.lock_warned
    then record n { lock_warned = true; notifications = n.notifications ++ lock_notice ∷ [] }
    else n

unfoldable pub warn_style : Bool → Notices → Notices
warn_style should_warn n =
    if should_warn && not n.style_warned
    then record n { style_warned = true; notifications = n.notifications ++ style_notice ∷ [] }
    else n

-- `static_cast<int>`
unfoldable pub to_int32 : ℤ → ℤ
to_int32 n = let m = to_uint32 n in if ltb m (2 ^ 31) then pos m else negsuc (2 ^ 32 - 1 - m)

abbrev pub is_null : UiKind → Bool
is_null null_ui = true
is_null border_ui = false
is_null external_ui = false

abbrev pub is_border : UiKind → Bool
is_border null_ui = false
is_border border_ui = true
is_border external_ui = false

abbrev pub is_external : UiKind → Bool
is_external null_ui = false
is_external border_ui = false
is_external external_ui = true

module _ (H : Host) where
  abbrev pub Slot : ValueType → Type 0
  Slot t = Option (H.Value t)

  pub record Values : Type 0 where
    pub debounce_ms : Slot int
    pub default_scope : Slot string
    pub start_offset : Slot string
    pub ui : Slot string
    pub border_style : Slot string
    pub border_color : Slot string
    pub border_size : Slot int
    pub selection_follow_workspace : Slot bool
    pub pulse_period_ms : Slot int
    pub dim_alpha : Slot float
    pub wrap : Slot bool
    pub lock_history_on_session : Slot bool
    pub restore_focus_on_cancel : Slot bool
    pub external_socket : Slot string

  -- `Values{}`
  abbrev pub no_values : Values
  no_values = record {
    debounce_ms = none;
    default_scope = none;
    start_offset = none;
    ui = none;
    border_style = none;
    border_color = none;
    border_size = none;
    selection_follow_workspace = none;
    pulse_period_ms = none;
    dim_alpha = none;
    wrap = none;
    lock_history_on_session = none;
    restore_focus_on_cancel = none;
    external_socket = none;
  }

  unfoldable pub read : {σ : Type 0} (t : ValueType) → H.State → Slot t → Call σ (Carrier H.Float t)
  read t h none = throw "mru::plugin::config::read: null config value"
  read t h (some v) =
      if type_eq (H.underlying v) t
      then pure (H.value v h)
      else throw
          (str_append "mru::plugin::config::read: type mismatch for '" (str_append (H.name v) "'"))

  unfoldable pub read_config : H.State → Values → Call Notices PluginConfig
  unfolding read warn_lock warn_style to_int32
  read_config h values = do
    debounce_ms ← read int h values.debounce_ms
    default_scope ← read string h values.default_scope
    start_offset ← read string h values.start_offset
    wrap ← read bool h values.wrap
    lock ← read bool h values.lock_history_on_session
    modify (warn_lock lock)
    restore ← read bool h values.restore_focus_on_cancel
    ui ← read string h values.ui
    style ← read string h values.border_style
    modify (warn_style (parse_border_style style).should_warn)
    border_color ← read string h values.border_color
    border_size ← read int h values.border_size
    follow ← read bool h values.selection_follow_workspace
    pulse_period_ms ← read int h values.pulse_period_ms
    read float h values.dim_alpha
    external_socket ← read string h values.external_socket
    pure (record {
      debounce_ms = clamp_debounce_ms debounce_ms;
      default_scope = parse_scope default_scope;
      start_offset = parse_start_offset start_offset;
      wrap = wrap;
      lock_history_on_session = lock;
      restore_focus_on_cancel = restore;
      ui_null = is_null (parse_ui_backend ui).kind;
      ui_border = is_border (parse_ui_backend ui).kind;
      ui_external = is_external (parse_ui_backend ui).kind;
      ui_matched = (parse_ui_backend ui).matched;
      border_style = (parse_border_style style).style;
      border_color = border_color;
      border_size = to_int32 border_size;
      selection_follow_workspace = follow;
      pulse_period_ms = clamp_pulse_period_ms pulse_period_ms;
      external_socket = external_socket;
    })
