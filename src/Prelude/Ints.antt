-- ===== src/Prelude/Ints.antt =====
-- Signed integers over the native numbers, under the library's names, and `std::clamp`.
use Prim.Native.Nat.{ℕ}
use mathlib.Core.Bool.{Bool, true, false}
use mathlib.Core.Path.{◌≡◌, ap}
use mru_switcher.Prelude.Tests.{if◌then◌else◌, ltb, ◌==◌, ==_iff}

pub data ℤ : Type 0 where
  pos negsuc : ℕ → ℤ

-- `a < b`
abbrev pub less : ℤ → ℤ → Bool
less (pos a) (pos b) = ltb a b
less (pos a) (negsuc b) = false
less (negsuc a) (pos b) = true
less (negsuc a) (negsuc b) = ltb b a

-- `std::clamp(v, lo, hi)`
abbrev pub clamp : ℤ → ℤ → ℤ → ℤ
clamp v lo hi = if less v lo then lo else if less hi v then hi else v

-- `==`
abbrev pub int_eq : ℤ → ℤ → Bool
int_eq (pos a) (pos b) = a == b
int_eq (pos a) (negsuc b) = false
int_eq (negsuc a) (pos b) = false
int_eq (negsuc a) (negsuc b) = a == b

pub int_eq→eq : (a b : ℤ) → int_eq a b ≡ true → a ≡ b
int_eq→eq (pos a) (pos b) h = ap pos ((==_iff a b).0 h)
int_eq→eq (pos a) (negsuc b) h = cc
int_eq→eq (negsuc a) (pos b) h = cc
int_eq→eq (negsuc a) (negsuc b) h = ap negsuc ((==_iff a b).0 h)
