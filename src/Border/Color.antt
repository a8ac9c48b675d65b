-- ===== src/Border/Color.antt =====
-- `darker_color`: the colour of the other half of a pulse.
use mru_switcher.Prelude.{
  ℕ, zero, suc, ◌+◌, ◌-◌, ◌*◌, ◌/◌, ◌%◌, ◌^◌, ◌&&◌, ◌||◌, List, [], ◌∷◌, ◌++◌, Option, none, some,
  ◌>>=◌, ltb, leb, ◌==◌, if◌then◌else◌, is_empty, length, Bytes, codes, take, drop, starts_with,
  ends_with, trim_by, split_at, is_digit,
}

-- The lambda `digit`; `none` is its -1.
unfoldable pub hex_value : ℕ → Option ℕ
hex_value c =
    if is_digit c
    then some (c - b'0')
    else if leb b'a' c && leb c b'f'
    then some (c - b'a' + 10)
    else if leb b'A' c && leb c b'F'
    then some (c - b'A' + 10)
    else none

-- Texts of one or two digits; `none` is the -1.
unfoldable pub hex_byte : Bytes → Option ℕ
unfolding hex_value
hex_byte [] = none
hex_byte (c ∷ []) = hex_value c
hex_byte (c ∷ d ∷ []) = hex_value c >>= λ hi. hex_value d >>= λ lo. some (hi * 16 + lo)
hex_byte (c ∷ d ∷ e ∷ s) = none

-- A colour that was read; `ok == false` is the missing colour.
pub record Rgb : Type 0 where
  pub r : ℕ
  pub g : ℕ
  pub b : ℕ
  pub a : ℕ

-- `kHex[n]`
abbrev pub hex_digit : ℕ → ℕ
hex_digit n = if ltb n 10 then b'0' + n else b'a' + (n - 10)

-- `{:02x}` of a byte.
abbrev pub hex_pair : ℕ → Bytes
hex_pair n = hex_digit (n / 16) ∷ hex_digit (n % 16) ∷ []

unfoldable pub darker_hex : Rgb → Bytes
darker_hex c =
    codes "0x"
    ++ (hex_pair c.a ++ (hex_pair (c.r / 2) ++ (hex_pair (c.g / 2) ++ hex_pair (c.b / 2))))

abbrev pub trim_ws : Bytes → Bytes
trim_ws = trim_by (λ c. c == 32)

-- `hex_byte(s.substr(k, 2))`
abbrev pub byte_at : ℕ → Bytes → Option ℕ
byte_at k s = hex_byte (take 2 (drop k s))

abbrev pub rgb_of : Option ℕ → Option ℕ → Option ℕ → Option ℕ → Option Rgb
rgb_of r g b a =
    r >>= λ r. g >>= λ g. b >>= λ b. a >>= λ a. some (record { r = r; g = g; b = b; a = a })

-- After `0x`.
unfoldable pub parse_0x : Bytes → Option Rgb
unfolding hex_byte
parse_0x hex =
    if length hex == 6
    then rgb_of (byte_at 0 hex) (byte_at 2 hex) (byte_at 4 hex) (some 255)
    else if length hex == 8
    then rgb_of (byte_at 2 hex) (byte_at 4 hex) (byte_at 6 hex) (byte_at 0 hex)
    else none

-- What stands between the parentheses. Where there is no `(`, `find` gives -1 and the sums wrap.
unfoldable pub inside : Bytes → Bytes
inside input = elim (split_at (λ c. c == b'(') input) [
  | none ↦ take (length input - 1) input
  | some r ↦ take (length r.1 - 1) r.1
]

-- The value of the leading digits, and whether there is one.
unfoldable pub leading_number : ℕ → Bytes → ℕ
leading_number n [] = n
leading_number n (c ∷ s) =
    let rest = leading_number (n * 10 + (c - b'0')) s in if is_digit c then rest else n

-- `std::from_chars` into an int that was 0, and the test of its range. Too large a number is left at 0.
unfoldable pub component : Bytes → Option ℕ
unfolding leading_number
component [] = some 0
component (c ∷ s) =
    if c == b'-'
    then (let n = leading_number 0 s in if n == 0 || ltb (2 ^ 31) n then some 0 else none)
    else (let n = leading_number 0 (c ∷ s) in
        if ltb n (2 ^ 31) then if leb n 255 then some n else none else some 0)

-- The loop over the tokens between commas, for at most as many as the fuel says: those that were read.
unfoldable pub components : ℕ → Bytes → List ℕ
unfolding component
components zero inner = []
components (suc n) inner = elim (split_at (λ c. c == b',') inner) [
  | none ↦
      if is_empty (trim_ws inner)
      then []
      else elim (component (trim_ws inner)) [ none ↦ [] | some v ↦ v ∷ [] ]
  | some r ↦
      if is_empty (trim_ws r.0)
      then []
      else elim (component (trim_ws r.0)) [ none ↦ [] | some v ↦ v ∷ components n r.1 ]
]

unfoldable pub comma_form : Bytes → Option Rgb
unfolding components inside
comma_form input = elim (components 4 (inside input)) [
  | r ∷ g ∷ b ∷ [] ↦
      if starts_with input (codes "rgba(")
      then none
      else some (record { r = r; g = g; b = b; a = 255 })
  | r ∷ g ∷ b ∷ a ∷ [] ↦
      if starts_with input (codes "rgba(")
      then some (record { r = r; g = g; b = b; a = a })
      else none
  | _ ↦ none
]

unfoldable pub hex_form : Bytes → Option Rgb
unfolding inside hex_byte
hex_form input =
    let inner = inside input in
    if length inner == 6
    then rgb_of (byte_at 0 inner) (byte_at 2 inner) (byte_at 4 inner) (some 255)
    else if length inner == 8 && starts_with input (codes "rgba(")
    then rgb_of (byte_at 0 inner) (byte_at 2 inner) (byte_at 4 inner) (byte_at 6 inner)
    else none

unfoldable pub parse_hypr_color : Bytes → Option Rgb
unfolding parse_0x comma_form hex_form
parse_hypr_color raw =
    let input = trim_ws raw in
    if leb 3 (length input) && starts_with input (codes "0x")
    then parse_0x (drop 2 input)
    else if starts_with input (codes "rgb") && ends_with input b')'
    then comma_form input
    else if (starts_with input (codes "rgb(") || starts_with input (codes "rgba("))
        && ends_with input b')'
    then hex_form input
    else none

unfoldable pub darker_color : Bytes → Bytes
unfolding parse_hypr_color darker_hex
darker_color color = elim (parse_hypr_color color) [ none ↦ color | some c ↦ darker_hex c ]
