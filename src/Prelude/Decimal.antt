-- ===== src/Prelude/Decimal.antt =====
-- `std::to_string` of a number of at most 64 bits.
use Prim.Native.Nat.{ℕ, zero, suc, ◌+◌, ◌/◌, ◌%◌}
use mathlib.Core.List.{[], ◌∷◌}
use mru_switcher.Prelude.Tests.{◌==◌, if◌then◌else◌}
use mru_switcher.Prelude.Texts.{Bytes}

-- The digits of `n` before `out`, the last of them first.
unfoldable pub digits : ℕ → ℕ → Bytes → Bytes
digits zero n out = out
digits (suc fuel) n out =
    let more = digits fuel (n / 10) ((b'0' + n % 10) ∷ out) in if n == 0 then out else more

-- A number below 2 ^ 64 has at most twenty digits.
unfoldable pub to_string : ℕ → Bytes
unfolding digits
to_string n = if n == 0 then b'0' ∷ [] else digits 20 n []
