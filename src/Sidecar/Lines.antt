-- ===== src/Sidecar/Lines.antt =====
-- Files of plain assignments, for the parser of src/plugin/sidecar_config.cpp.
use Prim.Native.Char.{Char, code}
use Prim.Native.String.{String}
use mru_switcher.Prelude.{
  ◌≡◌, refl, ap, ◌∙◌, Bool, true, false, not, ◌&&◌, ◌||◌, List, [], ◌∷◌, some, if_cases, ◌==◌, All,
  arith,
}
use mru_switcher.DispatchArgs.{is_space}
use mru_switcher.Sidecar.Keys.{last_values, complaints, assign_all, assign_all_lem}
use mru_switcher.Sidecar.Parse.{
  trim_left, trim_right, trim, cut_comment, strip_inline_comment, chomp, split_eq, is_skipped,
  get_lines, assign, parse_sides, parse_line, parse_lines, parse, SidecarParse, no_overrides,
}

-- No space, no sign of a comment, no `=`.
abbrev pub is_plain : Char → Bool
is_plain c = not (is_space c) && not (code c == 35 || code c == 59) && not (code c == 61)

abbrev pub all_plain : String → Bool
all_plain String.[] = true
all_plain (String.◌∷◌ c s) = is_plain c && all_plain s

-- A key and its value.
abbrev pub text_of : String → String → String
text_of String.[] v = String.◌∷◌ "=" v
text_of (String.◌∷◌ c k) v = String.◌∷◌ c (text_of k v)

-- A line and what follows it.
abbrev pub ended : String → String → String
ended String.[] rest = String.◌∷◌ "\n" rest
ended (String.◌∷◌ c l) rest = String.◌∷◌ c (ended l rest)

trim_left-plain : (s : String) → all_plain s ≡ true → trim_left s ≡ s
trim_left-plain String.[] h = refl
trim_left-plain (String.◌∷◌ c s) h = ground arith

trim_right-plain : (s : String) → all_plain s ≡ true → trim_right s ≡ s
trim_right-plain String.[] h = refl
trim_right-plain (String.◌∷◌ c s) h = ground (arith, trim_right-plain s)

cut_comment-plain : (b : Bool) (s : String) → all_plain s ≡ true → cut_comment b s ≡ s
unfolding cut_comment
cut_comment-plain b String.[] h = refl
cut_comment-plain b (String.◌∷◌ c s) h = ground (arith, cut_comment-plain (is_space c) s)

split_eq-plain : (k v : String) → all_plain k ≡ true → split_eq (text_of k v) ≡ some (k, v)
split_eq-plain String.[] v h = refl
split_eq-plain (String.◌∷◌ c k) v h = ground (arith, split_eq-plain k v)

chomp-plain : (v : String) → all_plain v ≡ true → chomp v ≡ v
chomp-plain String.[] h = refl
chomp-plain (String.◌∷◌ c v) h = ground (arith, chomp-plain v)

chomp-text_of :
    (k v : String) → all_plain k ≡ true → all_plain v ≡ true → chomp (text_of k v) ≡ text_of k v
chomp-text_of String.[] v h l = ground (arith, chomp-plain v l)
chomp-text_of (String.◌∷◌ c k) v h l = ground (arith, chomp-text_of k v)

trim_left-text_of : (k v : String) → all_plain k ≡ true → trim_left (text_of k v) ≡ text_of k v
trim_left-text_of String.[] v h = refl
trim_left-text_of (String.◌∷◌ c k) v h = ground arith

is_skipped-text_of : (k v : String) → all_plain k ≡ true → is_skipped (text_of k v) ≡ false
is_skipped-text_of String.[] v h = refl
is_skipped-text_of (String.◌∷◌ c k) v h = ground arith

-- No newline.
abbrev pub one_line : String → Bool
one_line String.[] = true
one_line (String.◌∷◌ c s) = not (code c == 10) && one_line s

one_line-plain : (v : String) → all_plain v ≡ true → one_line v ≡ true
one_line-plain String.[] h = refl
one_line-plain (String.◌∷◌ c v) h = ground (arith, one_line-plain v)

one_line-text_of :
    (k v : String) → all_plain k ≡ true → all_plain v ≡ true → one_line (text_of k v) ≡ true
one_line-text_of String.[] v h l = one_line-plain v l
one_line-text_of (String.◌∷◌ c k) v h l = ground (arith, one_line-text_of k v)

get_lines-line :
    (l rest : String) → one_line l ≡ true → get_lines (ended l rest) ≡ l ∷ get_lines rest
unfolding get_lines
get_lines-line String.[] rest h = refl
get_lines-line (String.◌∷◌ c l) rest h = ground (arith, get_lines-line l rest)

-- One `key=value` to a line.
abbrev pub render : List (String × String) → String
render [] = ""
render ((k, v) ∷ entries) = ended (text_of k v) (render entries)

abbrev pub PlainEntry : String × String → Type 0
PlainEntry (k, v) = (all_plain k ≡ true) × (all_plain v ≡ true)

trim-plain : (s : String) → all_plain s ≡ true → trim s ≡ s
trim-plain s h = ap trim_right (trim_left-plain s h) ∙ trim_right-plain s h

parse_sides-plain :
    (view k v : String) (p : SidecarParse)
    → all_plain k ≡ true
    → all_plain v ≡ true
    → parse_sides view (some (k, v)) p ≡ assign k v p
unfolding parse_sides
parse_sides-plain view k v p h l =
    ap (λ x. assign x (trim (strip_inline_comment v)) p) (trim-plain k h)
    ∙ ap (λ x. assign k (trim x) p) (cut_comment-plain true v l)
    ∙ ap (λ x. assign k x p) (trim-plain v l)

-- The loop's turn on a line that is not skipped.
parse_line-sides :
    (line : String) (k v : String) (p : SidecarParse)
    → is_skipped (trim_left (chomp line)) ≡ false
    → split_eq (chomp line) ≡ some (k, v)
    → parse_line line p ≡ parse_sides (chomp line) (some (k, v)) p
unfolding parse_line
parse_line-sides line k v p h e =
    if_cases (λ q. q ≡ parse_sides (chomp line) (some (k, v)) p)
      (is_skipped (trim_left (chomp line))) (λ skipped. cc)
      (λ _. ap (λ o. parse_sides (chomp line) o p) e)

parse_line-plain :
    (k v : String) (p : SidecarParse)
    → all_plain k ≡ true
    → all_plain v ≡ true
    → parse_line (text_of k v) p ≡ assign k v p
parse_line-plain k v p h l =
    let whole = chomp-text_of k v h l in
    parse_line-sides (text_of k v) k v p
      (ap (λ t. is_skipped (trim_left t)) whole
        ∙ ap is_skipped (trim_left-text_of k v h)
        ∙ is_skipped-text_of k v h)
      (ap split_eq whole ∙ split_eq-plain k v h)
    ∙ parse_sides-plain (chomp (text_of k v)) k v p h l

get_lines-render :
    (entries : List (String × String)) (p : SidecarParse)
    → All PlainEntry entries
    → parse_lines (get_lines (render entries)) p ≡ assign_all entries p
unfolding parse_lines get_lines
get_lines-render [] p h = refl
get_lines-render ((k, v) ∷ entries) p ((plain_key, plain_value), rest) =
    ap (λ ls. parse_lines ls p)
      (get_lines-line (text_of k v) (render entries) (one_line-text_of k v plain_key plain_value))
    ∙ ap (parse_lines (get_lines (render entries))) (parse_line-plain k v p plain_key plain_value)
    ∙ get_lines-render entries (assign k v p) rest

-- A file with one `key=value` to a line, with no space, `#`, `;` or `=` in keys and values, is read as
-- follows: each of the fourteen known keys has the value of the last line with that key, and none where
-- no line has it; and there is one warning, in the order of the lines, for each line whose key is empty
-- and for each whose key is not known, and no other.
pub parse-render :
    (entries : List (String × String))
    → All PlainEntry entries
    → ((parse (render entries)).overrides ≡ last_values no_overrides entries)
      × ((parse (render entries)).warnings ≡ complaints entries)
unfolding parse
parse-render entries h =
    let read = get_lines-render entries (record { overrides = no_overrides; warnings = [] }) h in
    let (o, w) = assign_all_lem entries (record { overrides = no_overrides; warnings = [] }) in
    (ap (λ p. p.overrides) read ∙ o, ap (λ p. p.warnings) read ∙ w)
