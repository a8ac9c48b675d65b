-- ===== src/Border/Capture.antt =====
-- `normalize_capture`: a property that was read, as a text that can be written.
use mru_switcher.Prelude.{
  ℕ, ◌-◌, Bool, not, ◌&&◌, ◌||◌, [], ◌++◌, none, some, leb, ◌==◌, if◌then◌else◌, is_empty, length,
  Bytes, codes, drop, bytes_eq, starts_with, trim_by, split_last, all_bytes, is_digit,
}

pub data BorderSlot : Type 0 where
  active_color inactive_color size alpha alpha_inactive : BorderSlot

-- `kWhitespace`
abbrev pub is_blank : ℕ → Bool
is_blank c = c == 32 || c == 9 || c == 13 || c == 10

abbrev pub is_hex : ℕ → Bool
is_hex c = is_digit c || (leb b'a' c && leb c b'f') || (leb b'A' c && leb c b'F')

-- The end of the colour slots: the prefix, and the digits behind it.
unfoldable pub with_prefix : Bytes → Bytes
with_prefix raw =
    if starts_with raw (codes "rgb(") || starts_with raw (codes "rgba(")
    then raw
    else if starts_with raw (codes "0x")
    then if is_empty (drop 2 raw) || not (all_bytes is_hex (drop 2 raw)) then [] else raw
    else if length raw == 6 || length raw == 8
    then if all_bytes is_hex raw then codes "0x" ++ raw else []
    else []

-- Without the angle of the gradient.
unfoldable pub normalize_color : Bytes → Bytes
unfolding with_prefix
normalize_color raw = elim (split_last is_blank raw) [
  | none ↦ with_prefix raw
  | some r ↦
      if leb 3 (length r.1) && bytes_eq (drop (length r.1 - 3) r.1) (codes "deg")
      then with_prefix r.0
      else []
]

-- `unit_double` says of a text that `strtod` reads all of it as a finite number from 0 to 1.
unfoldable pub normalize_capture : (Bytes → Bool) → Bytes → BorderSlot → Bytes
unfolding normalize_color
normalize_capture unit_double raw BorderSlot.size =
    let text = trim_by is_blank raw in if all_bytes is_digit text then text else []
normalize_capture unit_double raw BorderSlot.alpha =
    let text = trim_by is_blank raw in if not (is_empty text) && unit_double text then text else []
normalize_capture unit_double raw BorderSlot.alpha_inactive =
    let text = trim_by is_blank raw in if not (is_empty text) && unit_double text then text else []
normalize_capture unit_double raw BorderSlot.active_color =
    let text = trim_by is_blank raw in if is_empty text then [] else normalize_color text
normalize_capture unit_double raw BorderSlot.inactive_color =
    let text = trim_by is_blank raw in if is_empty text then [] else normalize_color text
