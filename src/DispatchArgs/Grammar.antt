-- ===== src/DispatchArgs/Grammar.antt =====
-- The grammar `[next|prev] [scope]`, and that the parser accepts it and nothing else.
use Prim.Native.String.{String}
use text.Mathlib.TextEquality.{eq_iff}
use mru_switcher.Prelude.{
  ◌≡◌, ◌↔◌, refl, true, List, [], ◌∷◌, ◌++◌, Option, none, some, arith, value_or, Option-cases, inl,
  inr,
}
use mru_switcher.Window.{Direction, next, prev, Scope, global, monitor, workspace, visible, app}
use mru_switcher.Config.{parse_scope_token, scope_name}
use mru_switcher.Config.Laws.{parse_scope_token_iff}
use mru_switcher.DispatchArgs.{
  CycleArgs, dir_of, tokens_of, parse_end, parse_scope_part, parse_tokens, parse_cycle_args,
}

abbrev pub dir_name : Direction → String
dir_name next = "next"
dir_name prev = "prev"

abbrev pub dir_words : Option Direction → List String
dir_words none = []
dir_words (some d) = dir_name d ∷ []

abbrev pub scope_words : Option Scope → List String
scope_words none = []
scope_words (some s) = scope_name s ∷ []

-- The sentences of the grammar, by what they say.
abbrev pub words : Option Direction → Option Scope → List String
words d s = dir_words d ++ scope_words s

abbrev pub accepted : Option Direction → Option Scope → CycleArgs
accepted d s = record { dir = value_or d next; scope = s; ok = true; error = "" }

dir_named : (t : String) (d : Direction) → dir_of t ≡ some d → t ≡ dir_name d
unfolding dir_of
dir_named t d e = ground (arith, eq_iff t "next", eq_iff t "prev")

dir_of-scope : (s : Scope) → dir_of (scope_name s) ≡ none
unfolding dir_of scope_name
dir_of-scope global = refl
dir_of-scope monitor = refl
dir_of-scope workspace = refl
dir_of-scope visible = refl
dir_of-scope app = refl

dir_of-name : (d : Direction) → dir_of (dir_name d) ≡ some d
unfolding dir_of
dir_of-name next = refl
dir_of-name prev = refl

scope_part :
    (d : Direction) (s : Option Scope) → parse_scope_part d (scope_words s) ≡ accepted (some d) s
unfolding parse_scope_part parse_end
scope_part d none = refl
scope_part d (some s) = ground (arith, (parse_scope_token_iff (scope_name s) s).1 refl)

parse-words : (d : Option Direction) (s : Option Scope) → parse_tokens (words d s) ≡ accepted d s
unfolding parse_tokens
parse-words none none = scope_part next none
parse-words none (some s) = rw (dir_of-scope s, parse_tokens) (scope_part next (some s))
parse-words (some d) s = rw (dir_of-name d, parse_tokens) (scope_part d s)

scope_part_ok :
    (d : Direction) (toks : List String)
    → (parse_scope_part d toks).ok ≡ true
    → (s : Option Scope) × (toks ≡ scope_words s)
unfolding parse_scope_part parse_end
scope_part_ok d [] e = (none, refl)
scope_part_ok d (t ∷ []) e = elim (Option-cases (parse_scope_token t)) [
  | inl f ↦ ground arith
  | inr (s, f) ↦ (some s, rw ((parse_scope_token_iff t s).0 f))
]
scope_part_ok d (t ∷ u ∷ ts) e = ground arith

parse_ok :
    (toks : List String)
    → (parse_tokens toks).ok ≡ true
    → (d : Option Direction) × (s : Option Scope) × (toks ≡ words d s)
unfolding parse_tokens
parse_ok [] e = (none, none, refl)
parse_ok (t ∷ ts) e = elim (Option-cases (dir_of t)) [
  | inl f ↦ let (s, g) = scope_part_ok next (t ∷ ts) (ground arith) in (none, s, g)
  | inr (d, f) ↦
      let (s, g) = scope_part_ok d ts (ground arith) in (some d, s, ground (arith, dir_named t d f))
]

-- The parser accepts the arguments exactly when their tokens are an optional direction and then an
-- optional scope, and nothing else; it then gives that direction, or `next` when there is none, and
-- that scope.
pub parse_cycle_args_iff :
    (args : String)
    → ((parse_cycle_args args).ok ≡ true) ↔ (
        (d : Option Direction) × (s : Option Scope) × (tokens_of args ≡ words d s)
        × (parse_cycle_args args ≡ accepted d s))
unfolding parse_cycle_args
parse_cycle_args_iff args = (
  λ e. let (d, s, f) = parse_ok (tokens_of args) e in (d, s, f, rw f (parse-words d s)),
  λ (d, s, f, e). rw e,
)
