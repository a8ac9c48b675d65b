-- ===== src/Protocol/Echo.antt =====
-- What the plugin sends, were it sent back to src/plugin/overlay_protocol.cpp.
use mru_switcher.Prelude.{
  ℕ, ◌≡◌, refl, true, List, ◌++◌, none, ◌>>=◌, if◌then◌else◌, Bytes, codes, trim_by, to_string,
  arith,
}
use mru_switcher.Ports.{UiEndReason}
use mru_switcher.Border.Capture.{is_blank}
use mru_switcher.Protocol.{
  OverlayWindowInfo, version_field, encode_windows, encode_session_start, encode_selection,
  encode_session_end, read_int, read_string, command_of, command_line, parse_command, is_version,
}

-- The guards of `parse_command` where the rest refuses the line.
parse_command-none :
    (line : Bytes) → command_line (trim_by is_blank line) ≡ none → parse_command line ≡ none
unfolding parse_command
parse_command-none line h = ground arith

command_line-none :
    (line : Bytes)
    → (read_int line (codes "v") >>= λ v.
        if is_version v then (read_string line (codes "type") >>= command_of line) else none)
      ≡ none
    → command_line line ≡ none
unfolding command_line
command_line-none line h = ground arith

session_start_none :
    (t : Bytes)
    → parse_command (version_field ++ (codes "session_start\",\"windows\":[" ++ t)) ≡ none
unfolding read_int read_string command_of to_string
session_start_none t =
    parse_command-none (version_field ++ (codes "session_start\",\"windows\":[" ++ t))
      (command_line-none _ refl)

selection_none :
    (t : Bytes) → parse_command (version_field ++ (codes "selection\",\"index\":" ++ t)) ≡ none
unfolding read_int read_string command_of to_string
selection_none t =
    parse_command-none (version_field ++ (codes "selection\",\"index\":" ++ t))
      (command_line-none _ refl)

session_end_none : (reason : UiEndReason) → parse_command (encode_session_end reason) ≡ none
unfolding parse_command encode_session_end
session_end_none UiEndReason.applied = refl
session_end_none UiEndReason.cancelled = refl

-- No line that the plugin sends is a command, whatever the titles and the classes of the windows hold.
pub parse_command-encode :
    (windows : List OverlayWindowInfo) (index : ℕ) (reason : UiEndReason)
    → (parse_command (encode_session_start windows index) ≡ none)
      × (parse_command (encode_selection index) ≡ none)
      × (parse_command (encode_session_end reason) ≡ none)
unfolding encode_session_start encode_selection
parse_command-encode windows index reason = (
  session_start_none
      (encode_windows true windows ++ (codes "],\"index\":" ++ (to_string index ++ codes "}"))),
  selection_none (to_string index ++ codes "}"),
  session_end_none reason,
)
