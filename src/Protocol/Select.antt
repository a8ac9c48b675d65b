-- ===== src/Protocol/Select.antt =====
-- Commands of selection in src/plugin/overlay_protocol.cpp, with a decimal index.
use mru_switcher.Prelude.{
  ℕ, zero, suc, ◌+◌, ◌/◌, ◌%◌, ◌^◌, ◌≤◌, ◌<◌, ◌≡◌, refl, ap, ◌∙◌, Bool, true, false, [], ◌∷◌, ◌++◌,
  some, if_cases, ltb, ◌==◌, length, length-append, is_empty-last, Bytes, codes, ends_with,
  last_byte, trim_end, trim_by, is_digit, digits, to_string, pos, arith,
}
use mru_switcher.Border.Color.{leading_number}
use mru_switcher.Border.Capture.{is_blank}
use mru_switcher.Protocol.{
  CommandType, command, max_line_bytes, int_value, read_int, read_string, command_of, command_line,
  parse_command,
}

-- The text starts with a digit.
abbrev pub starts_digit : Bytes → Bool
starts_digit [] = false
starts_digit (c ∷ s) = is_digit c

append-digits :
    (fuel n : ℕ) (out rest : Bytes) → digits fuel n out ++ rest ≡ digits fuel n (out ++ rest)
unfolding digits
append-digits zero n out rest = refl
append-digits (suc fuel) n out rest =
    ground (arith, append-digits fuel (n / 10) ((b'0' + n % 10) ∷ out) rest)

leading_number-last :
    (n : ℕ) (out : Bytes) → leading_number (n / 10) ((b'0' + n % 10) ∷ out) ≡ leading_number n out
unfolding leading_number
leading_number-last n out = ground arith

leading_number-digits :
    (fuel n : ℕ) (out : Bytes)
    → n < 10 ^ fuel
    → leading_number 0 (digits fuel n out) ≡ leading_number n out
unfolding digits
leading_number-digits zero n out h = ap (λ m. leading_number m out) (omega arith)
leading_number-digits (suc fuel) n out h = ground (
  arith,
  leading_number-digits fuel (n / 10) ((b'0' + n % 10) ∷ out) (omega arith),
  leading_number-last n out,
)

starts_digit-digits :
    (fuel n : ℕ) (out : Bytes) → starts_digit out ≡ true → starts_digit (digits fuel n out) ≡ true
unfolding digits
starts_digit-digits zero n out h = h
starts_digit-digits (suc fuel) n out h =
    ground (arith, starts_digit-digits fuel (n / 10) ((b'0' + n % 10) ∷ out))

int_value-digit :
    (s : Bytes)
    → starts_digit s ≡ true
    → leading_number 0 s < 2 ^ 63
    → int_value s ≡ some (pos (leading_number 0 s))
unfolding int_value
int_value-digit [] h k = cc
int_value-digit (c ∷ s) h k = ground arith

starts_digit-positive :
    (fuel n : ℕ) (rest : Bytes) → (n == 0) ≡ false → starts_digit (digits (suc fuel) n rest) ≡ true
unfolding digits
starts_digit-positive fuel n rest h =
    ground (arith, starts_digit-digits fuel (n / 10) ((b'0' + n % 10) ∷ rest))

leading_number-end : (n : ℕ) (rest : Bytes) → starts_digit rest ≡ false → leading_number n rest ≡ n
unfolding leading_number
leading_number-end n [] k = refl
leading_number-end n (c ∷ s) k = ground arith

leading_number-zero :
    (n : ℕ) (rest : Bytes)
    → (n == 0) ≡ true
    → starts_digit rest ≡ false
    → leading_number 0 (b'0' ∷ rest) ≡ n
unfolding leading_number
leading_number-zero n rest z k = leading_number-end 0 rest k ∙ ground arith

digits-to_string :
    (n : ℕ) (rest : Bytes)
    → n < 2 ^ 63
    → starts_digit rest ≡ false
    → (starts_digit (to_string n ++ rest) ≡ true) × (leading_number 0 (to_string n ++ rest) ≡ n)
unfolding to_string
digits-to_string n rest h k =
    if_cases (λ t. (starts_digit (t ++ rest) ≡ true) × (leading_number 0 (t ++ rest) ≡ n)) (n == 0)
      (λ zero. (refl, leading_number-zero n rest zero k))
      (λ positive. (
        ap starts_digit (append-digits 20 n [] rest) ∙ starts_digit-positive 19 n rest positive,
        ap (leading_number 0) (append-digits 20 n [] rest)
            ∙ leading_number-digits 20 n rest (omega arith)
            ∙ leading_number-end n rest k,
      ))

int_value-to_string :
    (n : ℕ) (rest : Bytes)
    → n < 2 ^ 63
    → starts_digit rest ≡ false
    → int_value (to_string n ++ rest) ≡ some (pos n)
int_value-to_string n rest h k =
    let (first, number) = digits-to_string n rest h k in
    int_value-digit (to_string n ++ rest) first (omega (arith, number))
    ∙ ap (λ m. some (pos m)) number

length-digits : (fuel n : ℕ) (out : Bytes) → length (digits fuel n out) ≤ fuel + length out
unfolding digits
length-digits zero n out = omega arith
length-digits (suc fuel) n out = ground (arith, length-digits fuel (n / 10) ((b'0' + n % 10) ∷ out))

length-to_string : (n : ℕ) → length (to_string n) ≤ 20
unfolding to_string
length-to_string n = ground (arith, length-digits 20 n [])

trim_end-last :
    (p : ℕ → Bool) (s : Bytes) (c : ℕ) → p c ≡ false → trim_end p (s ++ c ∷ []) ≡ s ++ c ∷ []
trim_end-last p [] c h = ground arith
trim_end-last p (d ∷ s) c h = ground (arith, trim_end-last p s c h, is_empty-last s c)

last_byte-last : (s : Bytes) (c : ℕ) → last_byte (s ++ c ∷ []) ≡ some c
last_byte-last [] c = refl
last_byte-last (d ∷ []) c = refl
last_byte-last (d ∷ e ∷ s) c = last_byte-last (e ∷ s) c

abbrev pub select_line : ℕ → Bytes
select_line n = codes "{\"v\":1,\"type\":\"select\",\"index\":" ++ (to_string n ++ b'}' ∷ [])

length-select_line : (n : ℕ) → ltb max_line_bytes (length (select_line n)) ≡ false
length-select_line n = ground (arith, length-to_string n, length-append (to_string n) (b'}' ∷ []))

trim_by-select_line : (n : ℕ) → trim_by is_blank (select_line n) ≡ select_line n
trim_by-select_line n =
    trim_end-last is_blank (codes "{\"v\":1,\"type\":\"select\",\"index\":" ++ to_string n) b'}'
      refl

ends_with-select_line : (n : ℕ) → ends_with (select_line n) b'}' ≡ true
ends_with-select_line n = ground (arith, last_byte-last (b':' ∷ to_string n) b'}')

command_line-select_line :
    (n : ℕ) → n < 2 ^ 63 → command_line (select_line n) ≡ command CommandType.select n
unfolding command_line read_int read_string command_of
command_line-select_line n h =
    ground (arith, ends_with-select_line n, int_value-to_string n (b'}' ∷ []) h refl)

parse_command-fits :
    (line : Bytes)
    → ltb max_line_bytes (length line) ≡ false
    → parse_command line ≡ command_line (trim_by is_blank line)
unfolding parse_command
parse_command-fits line h = ground arith

-- A selection below 2 ^ 63, its index printed in decimal, is read as a selection of that index.
pub parse_command-select_line :
    (n : ℕ) → n < 2 ^ 63 → parse_command (select_line n) ≡ command CommandType.select n
parse_command-select_line n h =
    parse_command-fits (select_line n) (length-select_line n)
    ∙ ap command_line (trim_by-select_line n)
    ∙ command_line-select_line n h
