-- ===== src/DispatchArgs.antt =====
-- src/plugin/dispatch_args.cpp: the arguments of `mru:cycle`.
pub mod Grammar
use Prim.Native.Char.{Char, code}
use Prim.Native.String.{String, ◌++◌ as str_append}
use text.Mathlib.Text.{◌==◌ as str_eq}
use mru_switcher.Prelude.{
  ℕ, Bool, true, false, ◌||◌, ◌&&◌, List, [], ◌∷◌, Option, none, some, if◌then◌else◌, ◌==◌, leb,
}
use mru_switcher.Window.{Direction, next, prev, Scope}
use mru_switcher.Config.{parse_scope_token}

pub record CycleArgs : Type 0 where
  pub dir : Direction
  pub scope : Option Scope
  pub ok : Bool
  pub error : String

-- `std::isspace` of the classic locale.
abbrev pub is_space : Char → Bool
is_space c = code c == 32 || (leb 9 (code c) && leb (code c) 13)

-- `in >> t` until it fails; `word` is the token that is being read.
unfoldable pub read_tokens : String → String → List String
read_tokens word String.[] = if str_eq word "" then [] else word ∷ []
read_tokens word (String.◌∷◌ c s) =
    let fresh = read_tokens "" s in
    let longer = read_tokens (str_append word (String.◌∷◌ c String.[])) s in
    if is_space c then if str_eq word "" then fresh else word ∷ fresh else longer

unfoldable pub tokens_of : String → List String
tokens_of args = read_tokens "" args

unfoldable pub dir_of : String → Option Direction
dir_of s = if str_eq s "next" then some next else if str_eq s "prev" then some prev else none

-- What is left once a scope has been read.
unfoldable pub parse_end : Direction → Option Scope → List String → CycleArgs
parse_end dir scope [] = record { dir = dir; scope = scope; ok = true; error = "" }
parse_end dir scope (t ∷ ts) = record {
  dir = dir;
  scope = scope;
  ok = false;
  error = "too many arguments";
}

unfoldable pub parse_scope_part : Direction → List String → CycleArgs
unfolding parse_end
parse_scope_part dir [] = parse_end dir none []
parse_scope_part dir (t ∷ ts) = elim (parse_scope_token t) [
  | some scope ↦ parse_end dir (some scope) ts
  | none ↦ record {
    dir = dir;
    scope = none;
    ok = false;
    error = str_append "unknown scope token: " t;
  }
]

unfoldable pub parse_tokens : List String → CycleArgs
unfolding parse_scope_part
parse_tokens [] = parse_scope_part next []
parse_tokens (t ∷ ts) = elim (dir_of t) [
  | some dir ↦ parse_scope_part dir ts
  | none ↦ parse_scope_part next (t ∷ ts)
]

unfoldable pub parse_cycle_args : String → CycleArgs
unfolding tokens_of parse_tokens
parse_cycle_args args = parse_tokens (tokens_of args)
