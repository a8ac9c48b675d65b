-- ===== src/Sidecar/Parse.antt =====
-- The lines of the second configuration file, and where it lies.
use Prim.Native.Char.{Char, code}
use Prim.Native.String.{String, ◌++◌ as str_append}
use text.Mathlib.Text.{◌==◌ as str_eq}
use mru_switcher.Prelude.{
  Bool, true, false, ◌&&◌, ◌||◌, List, [], ◌∷◌, ◌++◌, Option, none, some, ◌>>=◌, if◌then◌else◌,
  ◌==◌,
}
use mru_switcher.DispatchArgs.{is_space}
use mru_switcher.Sidecar.{SidecarOverrides}

-- `empty()`
abbrev pub is_empty_text : String → Bool
is_empty_text String.[] = true
is_empty_text (String.◌∷◌ c s) = false

abbrev pub trim_left : String → String
trim_left String.[] = ""
trim_left (String.◌∷◌ c s) = let rest = trim_left s in if is_space c then rest else String.◌∷◌ c s

abbrev pub trim_right : String → String
trim_right String.[] = ""
trim_right (String.◌∷◌ c s) =
    let rest = trim_right s in if is_space c && is_empty_text rest then "" else String.◌∷◌ c rest

abbrev pub trim : String → String
trim s = trim_right (trim_left s)

-- The first `#` or `;` that follows a space, or that stands first where `at_break`, and what is behind
-- it are cut.
unfoldable pub cut_comment : Bool → String → String
cut_comment at_break String.[] = ""
cut_comment at_break (String.◌∷◌ c s) =
    let rest = cut_comment (is_space c) s in
    if (code c == 35 || code c == 59) && at_break then "" else String.◌∷◌ c rest

abbrev pub strip_inline_comment : String → String
strip_inline_comment = cut_comment true

-- `none` is an unknown key.
unfoldable pub assign_raw : SidecarOverrides → String → String → Option SidecarOverrides
assign_raw o key value =
    if str_eq key "debounce_ms"
    then some (record o { debounce_ms = some value })
    else if str_eq key "default_scope"
    then some (record o { default_scope = some value })
    else if str_eq key "start_offset"
    then some (record o { start_offset = some value })
    else if str_eq key "wrap"
    then some (record o { wrap = some value })
    else if str_eq key "ui"
    then some (record o { ui = some value })
    else if str_eq key "border_style"
    then some (record o { border_style = some value })
    else if str_eq key "border_color"
    then some (record o { border_color = some value })
    else if str_eq key "border_size"
    then some (record o { border_size = some value })
    else if str_eq key "selection_follow_workspace"
    then some (record o { selection_follow_workspace = some value })
    else if str_eq key "pulse_period_ms"
    then some (record o { pulse_period_ms = some value })
    else if str_eq key "dim_alpha"
    then some (record o { dim_alpha = some value })
    else if str_eq key "lock_history_on_session"
    then some (record o { lock_history_on_session = some value })
    else if str_eq key "restore_focus_on_cancel"
    then some (record o { restore_focus_on_cancel = some value })
    else if str_eq key "external_socket"
    then some (record o { external_socket = some value })
    else none

pub record SidecarParse : Type 0 where
  pub overrides : SidecarOverrides
  pub warnings : List String

abbrev pub with_warning : String → SidecarParse → SidecarParse
with_warning message p = record p { warnings = p.warnings ++ message ∷ [] }

-- The line without one carriage return at its end.
abbrev pub chomp : String → String
chomp String.[] = ""
chomp (String.◌∷◌ c s) =
    let rest = chomp s in if code c == 13 && is_empty_text s then "" else String.◌∷◌ c rest

-- What stands before the first `=`, and what after it.
abbrev pub split_eq : String → Option (String × String)
split_eq String.[] = none
split_eq (String.◌∷◌ c s) =
    let rest = split_eq s in
    if code c == 61 then some ("", s) else (rest >>= λ r. some (String.◌∷◌ c r.0, r.1))

-- Nothing but space, or a comment.
abbrev pub is_skipped : String → Bool
is_skipped String.[] = true
is_skipped (String.◌∷◌ c s) = code c == 35 || code c == 59

unfoldable pub assign : String → String → SidecarParse → SidecarParse
unfolding assign_raw
assign key value p =
    if is_empty_text key
    then with_warning "mru-switcher sidecar: ignoring line with empty key" p
    else elim (assign_raw p.overrides key value) [
      | some o ↦ record p { overrides = o }
      | none ↦
          with_warning
            (str_append "mru-switcher sidecar: ignoring unknown key '" (str_append key "'")) p
    ]

-- The two sides of the line, if it has two.
unfoldable pub parse_sides : String → Option (String × String) → SidecarParse → SidecarParse
unfolding assign cut_comment
parse_sides view none p =
    with_warning (str_append "mru-switcher sidecar: ignoring malformed line (no '='): " (trim view))
      p
parse_sides view (some (key, value)) p = assign (trim key) (trim (strip_inline_comment value)) p

-- One turn of the loop, on the line that `getline` read.
unfoldable pub parse_line : String → SidecarParse → SidecarParse
unfolding parse_sides
parse_line line p =
    let view = chomp line in
    if is_skipped (trim_left view) then p else parse_sides view (split_eq view) p

-- A character at the front of the first line.
abbrev pub put_char : Char → List String → List String
put_char c [] = String.◌∷◌ c "" ∷ []
put_char c (l ∷ ls) = String.◌∷◌ c l ∷ ls

-- The lines that `getline` reads; the last one need not end.
unfoldable pub get_lines : String → List String
get_lines String.[] = []
get_lines (String.◌∷◌ c s) =
    let rest = get_lines s in if code c == 10 then "" ∷ rest else put_char c rest

unfoldable pub parse_lines : List String → SidecarParse → SidecarParse
unfolding parse_line
parse_lines [] p = p
parse_lines (line ∷ lines) p = parse_lines lines (parse_line line p)

abbrev pub no_overrides : SidecarOverrides
no_overrides = record {
  debounce_ms = none;
  default_scope = none;
  start_offset = none;
  wrap = none;
  ui = none;
  border_style = none;
  border_color = none;
  border_size = none;
  selection_follow_workspace = none;
  pulse_period_ms = none;
  dim_alpha = none;
  lock_history_on_session = none;
  restore_focus_on_cancel = none;
  external_socket = none;
}

unfoldable pub parse : String → SidecarParse
unfolding get_lines parse_lines
parse text = parse_lines (get_lines text) (record { overrides = no_overrides; warnings = [] })

-- An environment variable that is not set is `none`.
unfoldable pub default_path : Option String → Option String → String
default_path xdg_config_home home = elim xdg_config_home [
  | some (String.◌∷◌ c s) ↦ str_append (String.◌∷◌ c s) "/mru-switcher/config"
  | _ ↦ elim home [
    | some (String.◌∷◌ c s) ↦ str_append (String.◌∷◌ c s) "/.config/mru-switcher/config"
    | _ ↦ ""
  ]
]

abbrev pub nothing_parsed : SidecarParse
nothing_parsed = record { overrides = no_overrides; warnings = [] }

-- What a file holds is `none` where it cannot be opened or read.
unfoldable pub load_file : (String → Option String) → String → SidecarParse
unfolding parse
load_file file path =
    if is_empty_text path
    then nothing_parsed
    else elim (file path) [ none ↦ nothing_parsed | some text ↦ parse text ]

unfoldable pub load_default :
    (String → Option String) → Option String → Option String → SidecarParse
unfolding load_file default_path
load_default file xdg_config_home home = load_file file (default_path xdg_config_home home)
