-- ===== src/Sidecar.antt =====
-- src/plugin/sidecar_config.cpp: the second configuration file. A value that it holds and that is
-- valid takes the place of the one that was there. Warnings are the texts that `warn` is called with.
pub mod Range
pub mod Parse
pub mod Keys
pub mod Lines
use Prim.Native.Char.{Char, code}
use Prim.Native.String.{String, ◌++◌ as str_append}
use text.Mathlib.Text.{◌==◌ as str_eq}
use mru_switcher.Prelude.{
  ℕ, zero, suc, ◌+◌, ◌-◌, ◌*◌, ◌^◌, Bool, true, false, not, ◌&&◌, ◌||◌, List, [], ◌∷◌, ◌++◌, Option,
  none, some, ◌>>=◌, if◌then◌else◌, ltb, leb, ◌==◌, ℤ, pos, negsuc, less,
}
use mru_switcher.Window.{Scope, StartOffset}
use mru_switcher.Config.{
  PluginConfig, UiKind, null_ui, border_ui, external_ui, parse_scope_token, parse_scope,
  parse_start_offset, parse_ui_backend, parse_border_style, clamp_debounce_ms,
  clamp_pulse_period_ms,
}

pub record SidecarOverrides : Type 0 where
  pub debounce_ms : Option String
  pub default_scope : Option String
  pub start_offset : Option String
  pub wrap : Option String
  pub ui : Option String
  pub border_style : Option String
  pub border_color : Option String
  pub border_size : Option String
  pub selection_follow_workspace : Option String
  pub pulse_period_ms : Option String
  pub dim_alpha : Option String
  pub lock_history_on_session : Option String
  pub restore_focus_on_cancel : Option String
  pub external_socket : Option String

-- The digits that follow a number read so far; `none` at the first character that is no digit.
unfoldable pub read_digits : ℕ → String → Option ℕ
read_digits n String.[] = some n
read_digits n (String.◌∷◌ c s) =
    let rest = read_digits (n * 10 + (code c - 48)) s in
    if leb 48 (code c) && leb (code c) 57 then rest else none

unfoldable pub read_number : String → Option ℕ
unfolding read_digits
read_number s = if str_eq s "" then none else read_digits 0 s

abbrev pub negated : ℕ → ℤ
negated zero = pos 0
negated (suc n) = negsuc n

-- `std::from_chars` into a std::int64_t, of the whole text.
unfoldable pub parse_int_strict : String → Option ℤ
unfolding read_number
parse_int_strict String.[] = none
parse_int_strict (String.◌∷◌ c s) =
    if code c == 45
    then (read_number s >>= λ n. if leb n (2 ^ 63) then some (negated n) else none)
    else (read_number (String.◌∷◌ c s) >>= λ n. if ltb n (2 ^ 63) then some (pos n) else none)

unfoldable pub parse_bool_strict : String → Option Bool
parse_bool_strict s =
    if str_eq s "true" || str_eq s "1"
    then some true
    else if str_eq s "false" || str_eq s "0"
    then some false
    else none

-- The configuration so far and the warnings so far.
abbrev pub Overlaid : Type 0
Overlaid = PluginConfig × List String

abbrev pub warn : String → Overlaid → Overlaid
warn message (cfg, ws) = (cfg, ws ++ message ∷ [])

abbrev pub invalid : String → String → Overlaid → Overlaid
invalid key value = warn (
    str_append "mru-switcher sidecar: ignoring invalid '"
      (str_append key (str_append "' value '" (str_append value "' (keeping config value)"))))

-- `if (o.key.has_value())`, with the parse of the value, the assignment and the warning.
unfoldable pub with_value {ℓ} :
    {A : Type ℓ}
    → String
    → (String → Option A)
    → (A → PluginConfig → PluginConfig)
    → Option String
    → Overlaid
    → Overlaid
with_value key parse assign none out = out
with_value key parse assign (some value) out = elim (parse value) [
  | some a ↦ (assign a out.0, out.1)
  | none ↦ invalid key value out
]

unfoldable pub scope_value : String → Option Scope
scope_value v = parse_scope_token v >>= λ s. some (parse_scope v)

unfoldable pub offset_value : String → Option StartOffset
offset_value v = if str_eq v "first" || str_eq v "second" then some (parse_start_offset v) else none

unfoldable pub ui_value : String → Option UiKind
ui_value v = if (parse_ui_backend v).matched then some (parse_ui_backend v).kind else none

abbrev pub set_ui : UiKind → PluginConfig → PluginConfig
set_ui null_ui cfg = record cfg {
  ui_null = true;
  ui_border = false;
  ui_external = false;
  ui_matched = true;
}
set_ui border_ui cfg = record cfg {
  ui_null = false;
  ui_border = true;
  ui_external = false;
  ui_matched = true;
}
set_ui external_ui cfg = record cfg {
  ui_null = false;
  ui_border = false;
  ui_external = true;
  ui_matched = true;
}

unfoldable pub with_style : Option String → Overlaid → Overlaid
with_style none out = out
with_style (some v) (cfg, ws) =
    let style = parse_border_style v in
    let set : Overlaid = (record cfg { border_style = style.style }, ws) in
    if style.should_warn
    then warn
        (str_append "mru-switcher sidecar: unknown border_style '" (str_append v "', using solid"))
        set
    else set

unfoldable pub with_color : Option String → Overlaid → Overlaid
with_color none out = out
with_color (some v) (cfg, ws) = (record cfg { border_color = v }, ws)

unfoldable pub size_value : String → Option ℤ
size_value v = parse_int_strict v >>= λ n.
    if not (less n (negsuc 0)) && not (less (pos 100) n) then some n else none

unfoldable pub with_lock : Option String → Overlaid → Overlaid
with_lock none out = out
with_lock (some v) (cfg, ws) = elim (parse_bool_strict v) [
  | none ↦ invalid "lock_history_on_session" v (cfg, ws)
  | some b ↦
      let set : Overlaid = (record cfg { lock_history_on_session = b }, ws) in
      if b
      then set
      else warn
          "mru-switcher sidecar: lock_history_on_session is reserved and ignored (lock-in is always on while switching)"
          set
]

unfoldable pub with_socket : Option String → Overlaid → Overlaid
with_socket none out = out
with_socket (some v) (cfg, ws) = (record cfg { external_socket = v }, ws)

-- `finite_double` says of a text that `strtod` reads all of it as a finite number. The number itself
-- goes to the strength of the dimming, which is left out of the configuration.
unfoldable pub apply_overlay : (String → Bool) → SidecarOverrides → PluginConfig → Overlaid
apply_overlay finite_double o cfg = with_socket o.external_socket (
    with_value "restore_focus_on_cancel" parse_bool_strict
      (λ b c. record c { restore_focus_on_cancel = b }) o.restore_focus_on_cancel
      (with_lock o.lock_history_on_session (
        with_value "dim_alpha" (λ v. if finite_double v then some v else none) (λ v c. c)
          o.dim_alpha
          (with_value "pulse_period_ms" parse_int_strict
            (λ n c. record c { pulse_period_ms = clamp_pulse_period_ms n }) o.pulse_period_ms
            (with_value "selection_follow_workspace" parse_bool_strict
              (λ b c. record c { selection_follow_workspace = b }) o.selection_follow_workspace
              (with_value "border_size" size_value (λ n c. record c { border_size = n })
                o.border_size
                (with_color o.border_color (
                  with_style o.border_style (
                    with_value "ui" ui_value set_ui o.ui (
                      with_value "wrap" parse_bool_strict (λ b c. record c { wrap = b }) o.wrap
                        (with_value "start_offset" offset_value
                          (λ s c. record c { start_offset = s }) o.start_offset
                          (with_value "default_scope" scope_value
                            (λ s c. record c { default_scope = s }) o.default_scope
                            (with_value "debounce_ms" parse_int_strict
                              (λ n c. record c { debounce_ms = clamp_debounce_ms n }) o.debounce_ms
                              (cfg, []))))))))))))))
