-- ===== src/Protocol.antt =====
-- src/plugin/overlay_protocol.cpp and overlay_window_info.hpp: the lines between the plugin and an
-- overlay, as bytes. A position in a text is the part of it from there on.
pub mod Escape
pub mod Echo
pub mod Select
use mru_switcher.Prelude.{
  ℕ, zero, suc, ◌+◌, ◌*◌, ◌/◌, ◌%◌, ◌^◌, ◌-◌, ◌≡◌, refl, Bool, true, false, not, ◌&&◌, ◌||◌, List,
  [], ◌∷◌, ◌++◌, Option, none, some, ◌>>=◌, if◌then◌else◌, ltb, leb, ◌==◌, ℤ, pos, negsuc, less,
  is_empty, length, Bytes, codes, drop, bytes_eq, starts_with, ends_with, trim_start, trim_by,
  is_digit, to_string,
}
use mru_switcher.Ports.{UiEndReason, applied, cancelled}
use mru_switcher.Border.Color.{leading_number, hex_digit}
use mru_switcher.Border.Capture.{is_blank}
use mru_switcher.Sidecar.{negated}

-- `kVersion`, `kMaxLineBytes`
abbrev pub version : ℕ
version = 1

abbrev pub max_line_bytes : ℕ
max_line_bytes = 64 * 1024

pub record OverlayWindowInfo : Type 0 where
  pub address : ℕ
  pub title : Bytes
  pub window_class : Bytes

-- What `append_json_string` appends for one byte.
unfoldable pub escape_byte : ℕ → Bytes
escape_byte c =
    if c == 34
    then 92 ∷ 34 ∷ []
    else if c == 92
    then 92 ∷ 92 ∷ []
    else if c == 8
    then 92 ∷ b'b' ∷ []
    else if c == 12
    then 92 ∷ b'f' ∷ []
    else if c == 10
    then 92 ∷ b'n' ∷ []
    else if c == 13
    then 92 ∷ b'r' ∷ []
    else if c == 9
    then 92 ∷ b't' ∷ []
    else if ltb c 32
    then 92 ∷ b'u' ∷ b'0' ∷ b'0' ∷ hex_digit (c / 16) ∷ hex_digit (c % 16) ∷ []
    else c ∷ []

unfoldable pub escaped : Bytes → Bytes
unfolding escape_byte
escaped [] = []
escaped (c ∷ s) = escape_byte c ++ escaped s

-- What is appended for a text.
unfoldable pub append_json_string : Bytes → Bytes
unfolding escaped
append_json_string s = 34 ∷ (escaped s ++ 34 ∷ [])

-- The loop over the shifts, which are four times `n - 1` down to 0.
unfoldable pub nibbles : ℕ → Bool → ℕ → Bytes
nibbles zero started address = []
nibbles (suc n) started address =
    let nibble = (address / 16 ^ n) % 16 in
    elim (not started && nibble == 0) [
      | true ↦ nibbles n false address
      | false ↦ hex_digit nibble ∷ nibbles n true address
    ]

unfoldable pub encode_addr : ℕ → Bytes
unfolding nibbles
encode_addr address = codes "0x" ++ (if address == 0 then b'0' ∷ [] else nibbles 16 false address)

unfoldable pub encode_window : OverlayWindowInfo → Bytes
unfolding encode_addr append_json_string
encode_window w =
    codes "{\"addr\":\""
    ++ (encode_addr w.address
        ++ (codes "\",\"title\":"
            ++ (append_json_string w.title
                ++ (codes ",\"class\":" ++ (append_json_string w.window_class ++ codes "}")))))

-- The loop over the windows, with a comma before each but the first.
unfoldable pub encode_windows : Bool → List OverlayWindowInfo → Bytes
unfolding encode_window
encode_windows first [] = []
encode_windows first (w ∷ ws) =
    (if first then [] else codes ",") ++ (encode_window w ++ encode_windows false ws)

abbrev pub version_field : Bytes
version_field = codes "{\"v\":" ++ (to_string version ++ codes ",\"type\":\"")

unfoldable pub encode_session_start : List OverlayWindowInfo → ℕ → Bytes
unfolding encode_windows to_string
encode_session_start windows index =
    version_field
    ++ (codes "session_start\",\"windows\":["
        ++ (encode_windows true windows
            ++ (codes "],\"index\":" ++ (to_string index ++ codes "}"))))

unfoldable pub encode_selection : ℕ → Bytes
unfolding to_string
encode_selection index =
    version_field ++ (codes "selection\",\"index\":" ++ (to_string index ++ codes "}"))

unfoldable pub encode_session_end : UiEndReason → Bytes
unfolding to_string
encode_session_end UiEndReason.applied =
    version_field ++ codes "session_end\",\"reason\":\"applied\"}"
encode_session_end UiEndReason.cancelled =
    version_field ++ codes "session_end\",\"reason\":\"cancelled\"}"

-- What follows the first place where `needle` stands.
unfoldable pub after : Bytes → Bytes → Option Bytes
after needle [] = if is_empty needle then some [] else none
after needle (c ∷ s) = elim (starts_with (c ∷ s) needle) [
  | true ↦ some (drop (length needle) (c ∷ s))
  | false ↦ after needle s
]

abbrev pub skip_ws : Bytes → Bytes
skip_ws = trim_start is_blank

-- What follows a colon, where something does.
unfoldable pub after_colon : Bytes → Option Bytes
after_colon [] = none
after_colon (c ∷ s) =
    if c == b':' then (if is_empty (skip_ws s) then none else some (skip_ws s)) else none

unfoldable pub value_after_key : Bytes → Bytes → Option Bytes
unfolding after after_colon
value_after_key s key = after (34 ∷ (key ++ 34 ∷ [])) s >>= λ r. after_colon (skip_ws r)

-- `std::from_chars` into a std::int64_t, of the digits that the text starts with.
unfoldable pub int_value : Bytes → Option ℤ
unfolding leading_number
int_value [] = none
int_value (c ∷ s) =
    if c == b'-'
    then elim s [
      | [] ↦ none
      | d ∷ t ↦
          if is_digit d && leb (leading_number 0 (d ∷ t)) (2 ^ 63)
          then some (negated (leading_number 0 (d ∷ t)))
          else none
    ]
    else if is_digit c && ltb (leading_number 0 (c ∷ s)) (2 ^ 63)
    then some (pos (leading_number 0 (c ∷ s)))
    else none

unfoldable pub read_int : Bytes → Bytes → Option ℤ
unfolding value_after_key int_value
read_int s key = value_after_key s key >>= int_value

-- The byte that an escape stands for; `none` where it is not supported.
unfoldable pub unescape_byte : ℕ → Option ℕ
unescape_byte d =
    if d == 34
    then some 34
    else if d == 92
    then some 92
    else if d == b'/'
    then some b'/'
    else if d == b'b'
    then some 8
    else if d == b'f'
    then some 12
    else if d == b'n'
    then some 10
    else if d == b'r'
    then some 13
    else if d == b't'
    then some 9
    else none

-- The loop of `read_string`; `none` where the text does not end, too.
unfoldable pub unescape : Bytes → Option Bytes
unfolding unescape_byte
unescape [] = none
unescape (c ∷ []) = if c == 34 then some [] else none
unescape (c ∷ d ∷ s) = elim (c == 92) [
  | true ↦ unescape_byte d >>= λ e. unescape s >>= λ out. some (e ∷ out)
  | false ↦ elim (c == 34) [ true ↦ some [] | false ↦ unescape (d ∷ s) >>= λ out. some (c ∷ out) ]
]

-- `read_string` from the place where the value stands.
unfoldable pub string_value : Bytes → Option Bytes
unfolding unescape
string_value [] = none
string_value (c ∷ s) = if c == 34 then unescape s else none

unfoldable pub read_string : Bytes → Bytes → Option Bytes
unfolding value_after_key string_value
read_string s key = value_after_key s key >>= string_value

pub data CommandType : Type 0 where
  select apply cancel : CommandType

pub record Command : Type 0 where
  pub type : CommandType
  pub index : ℕ

abbrev pub command : CommandType → ℕ → Option Command
command type index = some (record { type = type; index = index })

abbrev pub is_version : ℤ → Bool
is_version (pos n) = n == version
is_version (negsuc n) = false

abbrev pub select_at : ℤ → Option Command
select_at (pos n) = command CommandType.select n
select_at (negsuc n) = none

-- The type of a command, and the index of a selection.
unfoldable pub command_of : Bytes → Bytes → Option Command
unfolding read_int
command_of line type =
    if bytes_eq type (codes "apply")
    then command CommandType.apply 0
    else if bytes_eq type (codes "cancel")
    then command CommandType.cancel 0
    else if bytes_eq type (codes "select")
    then (read_int line (codes "index") >>= select_at)
    else none

-- The line without the blanks around it.
unfoldable pub command_line : Bytes → Option Command
unfolding read_int read_string command_of
command_line line =
    if leb 2 (length line) && starts_with line (b'{' ∷ []) && ends_with line b'}'
    then (read_int line (codes "v") >>= λ v.
        if is_version v then (read_string line (codes "type") >>= command_of line) else none)
    else none

unfoldable pub parse_command : Bytes → Option Command
unfolding command_line
parse_command line =
    if ltb max_line_bytes (length line) then none else command_line (trim_by is_blank line)
