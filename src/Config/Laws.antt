-- ===== src/Config/Laws.antt =====
-- The tokens of the configuration, and the bounds of its numbers.
use Prim.Native.String.{String}
use text.Mathlib.TextEquality.{eq_iff}
use mru_switcher.Prelude.{ℕ, min, max, ◌≤◌, ◌≡◌, ◌↔◌, refl, some, arith, ℤ, pos, negsuc}
use mru_switcher.Window.{Scope, global, monitor, workspace, visible, app}
use mru_switcher.Config.{parse_scope_token, scope_name, clamp_debounce_ms, clamp_pulse_period_ms}

scope_name-inj : (s : Scope) → parse_scope_token (scope_name s) ≡ some s
unfolding parse_scope_token scope_name
scope_name-inj global = refl
scope_name-inj monitor = refl
scope_name-inj workspace = refl
scope_name-inj visible = refl
scope_name-inj app = refl

named : (t : String) (s : Scope) → parse_scope_token t ≡ some s → t ≡ scope_name s
unfolding parse_scope_token scope_name
named t s e = ground (
  arith,
  eq_iff t "global",
  eq_iff t "monitor",
  eq_iff t "workspace",
  eq_iff t "visible",
  eq_iff t "app",
)

-- A token names a scope exactly when it is the name of that scope.
pub parse_scope_token_iff :
    (t : String) (s : Scope) → (parse_scope_token t ≡ some s) ↔ (t ≡ scope_name s)
parse_scope_token_iff t s = (named t s, λ e. rw e (scope_name-inj s))

-- The debounce is between 0 and 5000 whatever the configuration says, and a number between them is
-- kept.
pub clamp_debounce_ms_lem :
    (raw : ℤ)
    → (n : ℕ) × (clamp_debounce_ms raw ≡ pos n)
      × (n ≤ 5000)
      × ((k : ℕ) → raw ≡ pos k → k ≤ 5000 → n ≡ k)
unfolding clamp_debounce_ms
clamp_debounce_ms_lem (pos k) = (min k 5000, ground arith, omega arith, λ j e l. ground arith)
clamp_debounce_ms_lem (negsuc k) = (0, refl, omega arith, λ j e l. ground arith)

-- So it is for the period of the pulse, between 200 and 10000.
pub clamp_pulse_period_ms_lem :
    (raw : ℤ) → (n : ℕ) × (clamp_pulse_period_ms raw ≡ pos n) × (200 ≤ n) × (n ≤ 10000)
unfolding clamp_pulse_period_ms
clamp_pulse_period_ms_lem (pos k) = (max 200 (min k 10000), ground arith, omega arith, omega arith)
clamp_pulse_period_ms_lem (negsuc k) = (200, refl, omega arith, omega arith)
