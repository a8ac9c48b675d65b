-- ===== src/Config.antt =====
-- src/plugin/config_value.hpp and config_value.cpp: the values of the configuration. The strength of
-- the dimming is a double and is left out.
pub mod Laws
use Prim.Native.String.{String}
use text.Mathlib.Text.{◌==◌ as str_eq}
use mru_switcher.Prelude.{
  ℕ, Bool, true, false, Option, none, some, if◌then◌else◌, value_or, ℤ, pos, negsuc, clamp,
}
use mru_switcher.Window.{
  Scope, global, monitor, workspace, visible, app, StartOffset, first, second,
}

pub data BorderStyle : Type 0 where
  solid pulse dim : BorderStyle

pub record PluginConfig : Type 0 where
  pub debounce_ms : ℤ
  pub default_scope : Scope
  pub start_offset : StartOffset
  pub wrap : Bool
  pub lock_history_on_session : Bool
  pub restore_focus_on_cancel : Bool
  pub ui_null : Bool
  pub ui_border : Bool
  pub ui_external : Bool
  pub ui_matched : Bool
  pub border_style : BorderStyle
  pub border_color : String
  pub border_size : ℤ
  pub selection_follow_workspace : Bool
  pub pulse_period_ms : ℤ
  pub external_socket : String

abbrev pub default_plugin_config : PluginConfig
default_plugin_config = record {
  debounce_ms = pos 400;
  default_scope = global;
  start_offset = second;
  wrap = true;
  lock_history_on_session = true;
  restore_focus_on_cancel = false;
  ui_null = false;
  ui_border = true;
  ui_external = false;
  ui_matched = true;
  border_style = solid;
  border_color = "0xffffd9a0";
  border_size = negsuc 0;
  selection_follow_workspace = true;
  pulse_period_ms = pos 1000;
  external_socket = "";
}

unfoldable pub parse_scope_token : String → Option Scope
parse_scope_token s =
    if str_eq s "global"
    then some global
    else if str_eq s "monitor"
    then some monitor
    else if str_eq s "workspace"
    then some workspace
    else if str_eq s "visible"
    then some visible
    else if str_eq s "app"
    then some app
    else none

unfoldable pub parse_scope : String → Scope
parse_scope s = value_or (parse_scope_token s) global

unfoldable pub scope_name : Scope → String
scope_name global = "global"
scope_name monitor = "monitor"
scope_name workspace = "workspace"
scope_name visible = "visible"
scope_name app = "app"

unfoldable pub clamp_debounce_ms : ℤ → ℤ
clamp_debounce_ms raw = clamp raw (pos 0) (pos 5000)

unfoldable pub clamp_pulse_period_ms : ℤ → ℤ
clamp_pulse_period_ms raw = clamp raw (pos 200) (pos 10000)

pub data UiKind : Type 0 where
  null_ui border_ui external_ui : UiKind

pub record ParsedUi : Type 0 where
  pub kind : UiKind
  pub matched : Bool

unfoldable pub parse_ui_backend : String → ParsedUi
parse_ui_backend s =
    if str_eq s "null"
    then record { kind = null_ui; matched = true }
    else if str_eq s "border"
    then record { kind = border_ui; matched = true }
    else if str_eq s "external"
    then record { kind = external_ui; matched = true }
    else record { kind = null_ui; matched = false }

pub record ParsedBorderStyle : Type 0 where
  pub style : BorderStyle
  pub should_warn : Bool

unfoldable pub parse_border_style : String → ParsedBorderStyle
parse_border_style s =
    if str_eq s "solid"
    then record { style = solid; should_warn = false }
    else if str_eq s "pulse"
    then record { style = pulse; should_warn = false }
    else if str_eq s "dim"
    then record { style = dim; should_warn = false }
    else record { style = solid; should_warn = true }

unfoldable pub effective_ui_backend : PluginConfig → UiKind
effective_ui_backend cfg =
    if cfg.ui_border then border_ui else if cfg.ui_external then external_ui else null_ui

unfoldable pub parse_start_offset : String → StartOffset
parse_start_offset s = if str_eq s "first" then first else second
