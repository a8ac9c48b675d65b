-- ===== src/Protocol/Escape.antt =====
-- The escapes of the encoder in src/plugin/overlay_protocol.cpp against its reader.
use mathlib.Core.List.{append_assoc}
use mru_switcher.Prelude.{
  ℕ, ◌≡◌, refl, ap, ◌∙◌, Bool, false, ◌||◌, [], ◌∷◌, ◌++◌, none, some, ◌>>=◌, if◌then◌else◌, leb,
  ◌==◌, Bytes, all_bytes, arith,
}
use mru_switcher.Protocol.{
  escape_byte, escaped, append_json_string, unescape, unescape_byte, string_value,
}

-- A byte whose escape the reader supports.
abbrev pub is_readable : ℕ → Bool
is_readable c = leb 32 c || c == 8 || c == 9 || c == 10 || c == 12 || c == 13

unescape-plain :
    (c : ℕ) (t : Bytes)
    → (c == 92) ≡ false
    → (c == 34) ≡ false
    → unescape (c ∷ t) ≡ (unescape t >>= λ out. some (c ∷ out))
unfolding unescape
unescape-plain c [] h k = ground arith
unescape-plain c (d ∷ t) h k = ground arith

unescape-escape_byte :
    (c : ℕ) (t : Bytes)
    → unescape (escape_byte c ++ t)
      ≡ (if is_readable c then (unescape t >>= λ out. some (c ∷ out)) else none)
unfolding unescape escape_byte unescape_byte
unescape-escape_byte c t = ground (arith, unescape-plain c t)

-- The loop of `append_json_string` against the loop of `read_string`.
unescape-escaped :
    (s t : Bytes)
    → unescape (escaped s ++ 34 ∷ t) ≡ (if all_bytes is_readable s then some s else none)
unfolding escaped unescape
unescape-escaped [] [] = refl
unescape-escaped [] (d ∷ t) = refl
unescape-escaped (c ∷ s) t =
    ap unescape (append_assoc (escape_byte c) (escaped s) (34 ∷ t))
    ∙ unescape-escape_byte c (escaped s ++ 34 ∷ t)
    ∙ ground (arith, unescape-escaped s t)

-- A text that the encoder escaped is read back, whatever follows it, when none of its bytes is a
-- control character but a backspace, a tab, a line feed, a form feed or a carriage return; the reader
-- refuses it when one is.
pub string_value-append_json_string :
    (s t : Bytes)
    → string_value (append_json_string s ++ t) ≡ (if all_bytes is_readable s then some s else none)
unfolding string_value append_json_string
string_value-append_json_string s t =
    ap unescape (append_assoc (escaped s) (34 ∷ []) t) ∙ unescape-escaped s t
