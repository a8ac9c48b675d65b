-- ===== src/LuaBridge/Words.antt =====
-- The arguments of `hl.plugin.mru.cycle` against those of the dispatcher.
use Prim.Native.Char.{Char, code}
use Prim.Native.String.{String, ◌++◌ as str_append}
use text.Mathlib.Text.{◌==◌ as str_eq}
use text.Mathlib.TextLemmas.{append-nil, append_assoc}
use Prim.Native.String.append as append
use mru_switcher.Prelude.{
  ℕ, suc, ◌≡◌, refl, sym, ap, ◌∙◌, Bool, true, false, not, ◌&&◌, List, [], ◌∷◌, Option, none, some,
  map, lt→ltb, ◌>>=◌, ◌==◌, arith, All,
}
use mru_switcher.Scheduler.{SchedulerPort}
use mru_switcher.Ports.{Ports}
use mru_switcher.Session.Defs.{SessionController}
use mru_switcher.DispatchArgs.{is_space, read_tokens, tokens_of, parse_cycle_args}
use mru_switcher.Dispatch.{dispatch_cycle}
use mru_switcher.LuaBridge.{c_str, joined, join_args, lua_result_or_raise, cycle_joined, lua_cycle}

-- No space and no NUL.
abbrev pub is_solid : String → Bool
is_solid String.[] = true
is_solid (String.◌∷◌ c s) = not (is_space c) && not (code c == 0) && is_solid s

abbrev pub IsWord : String → Type 0
IsWord w = (is_solid w ≡ true) × (str_eq w "" ≡ false)

c_str-solid : (s : String) → is_solid s ≡ true → c_str s ≡ s
c_str-solid String.[] h = refl
c_str-solid (String.◌∷◌ c s) h = ground (arith, c_str-solid s)

longer_first :
    (c : Char) (s word : String)
    → is_space c ≡ false
    → read_tokens word (String.◌∷◌ c s) ≡ read_tokens (str_append word (String.◌∷◌ c String.[])) s
unfolding read_tokens
longer_first c s word h = rw h refl

-- A word is read to its end.
read_tokens-solid :
    (w word rest : String)
    → is_solid w ≡ true
    → read_tokens word (str_append w rest) ≡ read_tokens (str_append word w) rest
unfolding read_tokens
read_tokens-solid String.[] word rest h =
    ap (read_tokens word) (append.nil rest) ∙ ap (λ v. read_tokens v rest) (sym (append-nil word))
read_tokens-solid (String.◌∷◌ c w) word rest h =
    let one : String = String.◌∷◌ c String.[] in
    let shorter = read_tokens-solid w (str_append word one) rest (ground arith) in
    let joined_word : str_append (str_append word one) w ≡ str_append word (String.◌∷◌ c w) =
      append_assoc word one w
      ∙ ap (str_append word) (append.cons c String.[] w ∙ ap (String.◌∷◌ c) (append.nil w)) in
    ap (read_tokens word) (append.cons c w rest)
    ∙ (longer_first c (str_append w rest) word (ground arith)
        ∙ (shorter ∙ ap (λ v. read_tokens v rest) joined_word))

-- The words with a space before each.
abbrev spaced : List String → String
spaced [] = ""
spaced (w ∷ ws) = String.◌∷◌ " " (str_append w (spaced ws))

read_tokens-spaced :
    (ws : List String) (word : String)
    → All IsWord ws
    → str_eq word "" ≡ false
    → read_tokens word (spaced ws) ≡ word ∷ ws
unfolding read_tokens
read_tokens-spaced [] word a h = rw h refl
read_tokens-spaced (w ∷ ws) word a h =
    let next_word : read_tokens "" (str_append w (spaced ws)) ≡ w ∷ ws =
      read_tokens-solid w "" (spaced ws) a.0.0
      ∙ (ap (λ v. read_tokens v (spaced ws)) (append.nil w) ∙ read_tokens-spaced ws w a.1 a.0.1) in
    rw (h, next_word) refl

join_args-spaced :
    (ws : List String) (i : ℕ) (args : String)
    → All IsWord ws
    → join_args (suc (suc i)) (map some ws) args ≡ joined (str_append args (spaced ws))
unfolding join_args
join_args-spaced [] i args a = ap joined (sym (append-nil args))
join_args-spaced (w ∷ ws) i args a =
    let longer : String = str_append (str_append args " ") w in
    let spread : str_append longer (spaced ws) ≡ str_append args (spaced (w ∷ ws)) =
      append_assoc (str_append args " ") w (spaced ws)
      ∙ (append_assoc args " " (str_append w (spaced ws))
          ∙ ap (str_append args) (
              append.cons " " String.[] (str_append w (spaced ws))
              ∙ ap (String.◌∷◌ " ") (append.nil (str_append w (spaced ws))))) in
    rw (join_args, lt→ltb 1 (suc (suc i)) (omega arith), c_str-solid w a.0.0)
      (join_args-spaced ws (suc i) longer a.1 ∙ ap joined spread)

dispatch_cycle-tokens :
    {S : SchedulerPort} {P : Ports} (s t : String) (controller : Option (SessionController S P))
    → tokens_of s ≡ tokens_of t
    → dispatch_cycle s controller ≡ dispatch_cycle t controller
unfolding dispatch_cycle parse_cycle_args
dispatch_cycle-tokens s t none e = rw e refl
dispatch_cycle-tokens s t (some c) e = rw e refl

-- The words joined, by the loop from the first argument on.
join_args-words :
    (ws : List String)
    → All IsWord ws
    → (args : String) × (join_args 1 (map some ws) "" ≡ joined args) × (tokens_of args ≡ ws)
unfolding join_args tokens_of read_tokens
join_args-words [] a = ("", refl, refl)
join_args-words (w ∷ ws) a = (
  str_append w (spaced ws),
  rw (join_args, c_str-solid w a.0.0, append.nil w) (join_args-spaced ws 0 w a.1),
  read_tokens-solid w "" (spaced ws) a.0.0
      ∙ (ap (λ v. read_tokens v (spaced ws)) (append.nil w) ∙ read_tokens-spaced ws w a.1 a.0.1),
)

module _ {S : SchedulerPort} {P : Ports} where
  -- Words given to `hl.plugin.mru.cycle` as separate arguments do what the dispatcher does with any
  -- text whose tokens they are, and an error of it is raised in Lua.
  pub lua_cycle-words :
      (ws : List String) (text : String) (controller : Option (SessionController S P))
      → All IsWord ws
      → tokens_of text ≡ ws
      → lua_cycle (map some ws) controller
        ≡ (dispatch_cycle text controller >>= λ r. some (r.0, lua_result_or_raise r.1))
  unfolding lua_cycle cycle_joined
  lua_cycle-words ws text controller a e =
      let (args, f, g) = join_args-words ws a in
      rw f (
        ap (λ o. o >>= λ r. some (r.0, lua_result_or_raise r.1))
          (dispatch_cycle-tokens args text controller (g ∙ sym e)))
