-- ===== src/PropIo.antt =====
-- src/plugin/hypr/hyprctl_border_prop_io.cpp: border properties over the host's commands.
use mru_switcher.Prelude.{
  ℕ, Bool, true, false, ◌&&◌, ◌||◌, [], ◌∷◌, ◌++◌, Option, none, some, if◌then◌else◌, is_empty,
  Bytes, codes, trim_by,
}
use mru_switcher.Border.Capture.{BorderSlot, is_blank}
use mru_switcher.Protocol.{after, encode_addr}

-- What the host does: the reply of `getprop`, `none` where it throws, and the result of the
-- dispatcher `setprop`, if there is one: whether it succeeded, and its error.
pub record Host : Type 1 where
  pub World : Type 0
  pub getprop : World → Bytes → Option Bytes
  pub setprop : Option (World → Bytes → World × Option (Bool × Bytes))

abbrev pub contains_text : Bytes → Bytes → Bool
contains_text needle s = elim (after needle s) [ none ↦ false | some rest ↦ true ]

unfoldable pub looks_like_error : Bytes → Bool
unfolding after
looks_like_error out =
    contains_text (codes "Invalid") out
    || contains_text (codes "invalid") out
    || contains_text (codes "Error") out
    || contains_text (codes "error") out
    || contains_text (codes "unknown") out
    || contains_text (codes "not found") out
    || contains_text (codes "not enough") out

-- `{:x}` prints the digits that `encode_addr` prints.
unfoldable pub selector : ℕ → Bytes
unfolding encode_addr
selector address = codes "address:" ++ encode_addr address

unfoldable pub prop_name : BorderSlot → Bytes
prop_name BorderSlot.active_color = codes "active_border_color"
prop_name BorderSlot.inactive_color = codes "inactive_border_color"
prop_name BorderSlot.size = codes "border_size"
prop_name BorderSlot.alpha = codes "opacity"
prop_name BorderSlot.alpha_inactive = codes "opacity_inactive"

-- `get`; a reply that cannot be used is empty.
unfoldable pub read_prop : (H : Host) → H.World → ℕ → BorderSlot → Bytes
unfolding selector prop_name looks_like_error
read_prop H w address slot = elim (H.getprop w (selector address ++ (32 ∷ prop_name slot))) [
  | none ↦ []
  | some out ↦ if is_empty out || looks_like_error out then [] else trim_by is_blank out
]

abbrev pub succeeded : Option (Bool × Bytes) → Bool
succeeded none = false
succeeded (some (success, error)) = success && is_empty error

-- `set`
unfoldable pub write_prop : (H : Host) → H.World → ℕ → BorderSlot → Bytes → H.World × Bool
unfolding selector prop_name
write_prop H w address slot value = elim H.setprop [
  | none ↦ (w, false)
  | some run ↦
      let (v, answer) = run w (selector address ++ (32 ∷ (prop_name slot ++ (32 ∷ value)))) in
      (v, succeeded answer)
]
