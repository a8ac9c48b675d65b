-- ===== src/Tests/Ui.antt =====
-- The theorems on the border highlight and the overlay's lines at concrete inputs.
use mru_switcher.Prelude.{
  ℕ, ◌≡◌, refl, Bool, true, false, ◌&&◌, [], ◌∷◌, ◌++◌, none, some, ◌==◌, if◌then◌else◌, Bytes,
  codes, bytes_eq, pos, arith,
}
use mru_switcher.Window.{Scope}
use mru_switcher.Snapshot.{Snapshot}
use mru_switcher.Ports.{UiEndReason}
use mru_switcher.Config.{BorderStyle}
use mru_switcher.Border.Color.{darker_color}
use mru_switcher.Border.Capture.{
  BorderSlot, active_color, inactive_color, alpha, alpha_inactive, normalize_capture,
}
use mru_switcher.Border.Defs.{
  BorderPorts, BorderHighlightUi, Outcome, read_slot, on_session_start, probe_available, highlight,
  decorate, draw, apply_size, safe_set, elevate, restore_all, restore_windows, cancel_pulse,
  dim_ring, dim_window, new_border_ui, on_session_end,
}
use mru_switcher.PropIo.{Host, read_prop, write_prop}
use mru_switcher.Border.Watched.{Watched, slot_eq}
use mru_switcher.Border.Runs.{UiCall, run, on_session_end-run}
use mru_switcher.Protocol.{
  CommandType, command, append_json_string, string_value, encode_addr, encode_session_start,
  encode_selection, encode_session_end, parse_command, OverlayWindowInfo,
}
use mru_switcher.Protocol.Escape.{string_value-append_json_string}
use mru_switcher.Protocol.Echo.{parse_command-encode}

darker_argb : darker_color (codes " 0xff44cc88 ") ≡ codes "0xff226644"
unfolding darker_color
darker_argb = refl

darker_components : darker_color (codes "rgba(10, 20,30 ,128)") ≡ codes "0x80050a0f"
unfolding darker_color
darker_components = refl

darker_hex_inside : darker_color (codes "rgba(33ccffee)") ≡ codes "rgba(33ccffee)"
unfolding darker_color
darker_hex_inside = refl

gradient :
    normalize_capture (λ t. true) (codes "ff44cc88 0deg\n") BorderSlot.active_color
    ≡ codes "0xff44cc88"
unfolding normalize_capture
gradient = refl

read_select :
    parse_command (codes " {\"type\": \"select\", \"v\":1, \"index\":12}\n")
    ≡ command CommandType.select 12
unfolding parse_command
read_select = refl

printed_addr : encode_addr 48879 ≡ codes "0xbeef"
unfolding encode_addr
printed_addr = refl

string_value-append_json_string_example :
    string_value (append_json_string (97 ∷ 34 ∷ 10 ∷ []) ++ codes ",") ≡ some (97 ∷ 34 ∷ 10 ∷ [])
string_value-append_json_string_example =
    string_value-append_json_string (97 ∷ 34 ∷ 10 ∷ []) (codes ",")

abbrev shell : OverlayWindowInfo
shell = record {
  address = 48879;
  title = codes "{\"v\":1,\"type\":\"apply\"}";
  window_class = codes "term";
}

parse_command-encode_example :
    (parse_command (encode_session_start (shell ∷ []) 2) ≡ none)
    × (parse_command (encode_selection 2) ≡ none)
    × (parse_command (encode_session_end UiEndReason.applied) ≡ none)
parse_command-encode_example = parse_command-encode (shell ∷ []) 2 UiEndReason.applied

-- A desktop whose world is whether the window 7 is dimmed.
abbrev dimming_desk : BorderPorts
dimming_desk = record {
  World = Bool;
  is_valid = λ w r. true;
  get = λ w a s. elim s [
    | alpha ↦ some (if a == 7 && w then codes "0.6" else codes "1")
    | alpha_inactive ↦ some (codes "1")
    | BorderSlot.size ↦ some (codes "2")
    | active_color ↦ some (codes "ff112233 0deg")
    | inactive_color ↦ some (codes "ff000000")
  ];
  set = λ w a s v.
      (if a == 7 && slot_eq s BorderSlot.alpha then bytes_eq v (codes "0.6") else w, Outcome.done);
  begin = λ w. w;
  ensure_visible = λ w r. (w, true);
  finish = λ w e. (w, true);
  schedule = λ w d. (w, Outcome.done);
  cancel = λ w. w;
  unit_double = λ t. true;
}

shown-set_seven :
    (w : Bool) (a : ℕ) (s : BorderSlot) (v : Bytes)
    → (dimming_desk.set w a s v).0
      ≡ (if (a == 7 && slot_eq s BorderSlot.alpha) && true then bytes_eq v (codes "0.6") else w)
shown-set_seven w a s v = ground arith

shown-read_seven :
    (w : Bool) → bytes_eq (read_slot dimming_desk 7 BorderSlot.alpha w) (codes "0.6") ≡ w
unfolding read_slot normalize_capture
shown-read_seven true = refl
shown-read_seven false = refl

unset_seven :
    (w : Bool) → BorderSlot.alpha ≡ BorderSlot.size → bytes_eq (codes "unset") (codes "0.6") ≡ w
unset_seven w e = cc

abbrev alpha_of_seven : Watched dimming_desk 7 BorderSlot.alpha
alpha_of_seven = record {
  Shown = Bool;
  shown = λ w. w;
  means = λ v. bytes_eq v (codes "0.6");
  writable = true;
  set_done = λ w v. refl;
  shown-set = λ w a s v. shown-set_seven w a s v;
  shown-read = λ w e. shown-read_seven w;
  shown-unset = λ w e f. unset_seven w e;
  shown-begin = λ w. refl;
  shown-visible = λ w r. refl;
  shown-finish = λ w e. refl;
  shown-schedule = λ w d. refl;
  shown-cancel = λ w. refl;
}

abbrev two_windows : Snapshot
two_windows = record {
  windows = record { address = 3; generation = 1 } ∷ record { address = 7; generation = 1 } ∷ [];
  scope = Scope.global;
}

abbrev highlight_off : BorderHighlightUi dimming_desk
highlight_off =
    new_border_ui BorderStyle.dim (codes "0xffffd9a0") (pos 3) (pos 800) false (codes "0.6") false

dimmed_meanwhile : (run (UiCall.started two_windows 0 ∷ []) highlight_off).world ≡ true
unfolding run on_session_start probe_available highlight read_slot normalize_capture decorate draw
    apply_size safe_set elevate restore_all restore_windows cancel_pulse dim_ring dim_window
dimmed_meanwhile = refl

on_session_end-run_example :
    let v =
      on_session_end UiEndReason.cancelled
        (run (UiCall.started two_windows 0 ∷ UiCall.ticked ∷ []) highlight_off) in
    (v.captures ≡ []) × (v.world ≡ false)
on_session_end-run_example =
    on_session_end-run alpha_of_seven (UiCall.started two_windows 0 ∷ UiCall.ticked ∷ [])
      UiEndReason.cancelled highlight_off refl refl ((refl, (refl, tt)), (tt, tt))

-- A host that answers every question, and writes nothing.
abbrev answering : Host
answering = record {
  World = Bool;
  getprop = λ w question. some (if w then codes "ff44cc88 0deg\n" else codes "Invalid prop");
  setprop = some (λ w line. (w, some (bytes_eq line (codes "address:0xbeef border_size 3"), [])));
}

prop_read :
    (read_prop answering true 48879 BorderSlot.active_color ≡ codes "ff44cc88 0deg")
    × (read_prop answering false 48879 BorderSlot.active_color ≡ [])
unfolding read_prop
prop_read = (refl, refl)

prop_written : (write_prop answering true 48879 BorderSlot.size (codes "3")).1 ≡ true
unfolding write_prop
prop_written = refl
