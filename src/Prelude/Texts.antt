-- ===== src/Prelude/Texts.antt =====
-- Texts as lists of bytes, where the source walks them: literals, tests, searches and parts.
use Prim.Native.Char.{code}
use Prim.Native.Nat.{ℕ, zero, suc}
use Prim.Native.String.{String}
use mathlib.Core.Bool.{Bool, true, false, ◌&&◌, ◌||◌}
use mathlib.Core.List.{List, [], ◌∷◌}
use mathlib.Core.Option.{Option, none, some}
use mru_switcher.Prelude.Tests.{leb, ◌==◌, if◌then◌else◌, ◌>>=◌}
use mru_switcher.Prelude.Lists.{is_empty}

abbrev pub Bytes : Type 0
Bytes = List ℕ

-- The bytes of an ASCII text.
abbrev pub codes : String → Bytes
codes String.[] = []
codes (String.◌∷◌ c s) = code c ∷ codes s

abbrev pub take {ℓ} : {A : Type ℓ} → ℕ → List A → List A
take zero xs = []
take (suc n) [] = []
take (suc n) (x ∷ xs) = x ∷ take n xs

abbrev pub drop {ℓ} : {A : Type ℓ} → ℕ → List A → List A
drop zero xs = xs
drop (suc n) [] = []
drop (suc n) (x ∷ xs) = drop n xs

-- `==` of two texts.
abbrev pub bytes_eq : Bytes → Bytes → Bool
bytes_eq [] [] = true
bytes_eq [] (d ∷ t) = false
bytes_eq (c ∷ s) [] = false
bytes_eq (c ∷ s) (d ∷ t) = c == d && bytes_eq s t

abbrev pub starts_with : Bytes → Bytes → Bool
starts_with s [] = true
starts_with [] (d ∷ t) = false
starts_with (c ∷ s) (d ∷ t) = c == d && starts_with s t

-- The last byte, if there is one.
abbrev pub last_byte : Bytes → Option ℕ
last_byte [] = none
last_byte (c ∷ []) = some c
last_byte (c ∷ d ∷ s) = last_byte (d ∷ s)

-- `s.ends_with(c)`
abbrev pub ends_with : Bytes → ℕ → Bool
ends_with s c = elim (last_byte s) [ none ↦ false | some d ↦ d == c ]

-- Without the leading bytes that pass the test, without the trailing ones, and without both.
abbrev pub trim_start : (ℕ → Bool) → Bytes → Bytes
trim_start p [] = []
trim_start p (c ∷ s) = if p c then trim_start p s else c ∷ s

abbrev pub trim_end : (ℕ → Bool) → Bytes → Bytes
trim_end p [] = []
trim_end p (c ∷ s) = let rest = trim_end p s in if p c && is_empty rest then [] else c ∷ rest

abbrev pub trim_by : (ℕ → Bool) → Bytes → Bytes
trim_by p s = trim_end p (trim_start p s)

-- What stands before the first byte that passes the test, and what after it.
abbrev pub split_at : (ℕ → Bool) → Bytes → Option (Bytes × Bytes)
split_at p [] = none
split_at p (c ∷ s) =
    let rest = split_at p s in if p c then some ([], s) else (rest >>= λ r. some (c ∷ r.0, r.1))

-- What stands before the last byte that passes the test, and what after it.
abbrev pub split_last : (ℕ → Bool) → Bytes → Option (Bytes × Bytes)
split_last p [] = none
split_last p (c ∷ s) = elim (split_last p s) [
  | some r ↦ some (c ∷ r.0, r.1)
  | none ↦ if p c then some ([], s) else none
]

-- Every byte passes the test.
abbrev pub all_bytes : (ℕ → Bool) → Bytes → Bool
all_bytes p [] = true
all_bytes p (c ∷ s) = p c && all_bytes p s

abbrev pub is_digit : ℕ → Bool
is_digit c = leb b'0' c && leb c b'9'

-- `std::isspace` of the classic locale.
abbrev pub is_space : ℕ → Bool
is_space c = c == 32 || (leb 9 c && leb c 13)
