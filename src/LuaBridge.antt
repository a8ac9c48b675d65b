-- ===== src/LuaBridge.antt =====
-- src/plugin/plugin_lua_bridge.cpp: the dispatchers as functions of Lua. An argument is its text where
-- `lua_isstring` holds of it; an error that is raised is its text.
pub mod Words
use Prim.Native.Char.{Char, code}
use Prim.Native.String.{String, ◌++◌ as str_append}
use mru_switcher.Prelude.{
  ℕ, suc, Bool, List, [], ◌∷◌, ◌++◌, Option, none, some, ◌>>=◌, ◌==◌, ltb, if◌then◌else◌, is_empty,
  Bytes, codes, to_string,
}
use mru_switcher.Window.{Scope}
use mru_switcher.Scheduler.{SchedulerPort}
use mru_switcher.Ports.{Ports}
use mru_switcher.Session.Defs.{SessionController}
use mru_switcher.Dispatch.{
  SDispatchResult, dispatch_cycle, dispatch_apply, dispatch_cancel, dispatch_status,
}

-- What a function of Lua comes to: the values that it returns, or an error that it raises.
pub data LuaResult : Type 0 where
  returns : List Bytes → LuaResult
  raises : Bytes → LuaResult

-- A text that passes through a `const char *` ends before its first NUL.
abbrev pub c_str : String → String
c_str String.[] = ""
c_str (String.◌∷◌ c s) = let rest = c_str s in if code c == 0 then "" else String.◌∷◌ c rest

abbrev pub c_bytes : Bytes → Bytes
c_bytes [] = []
c_bytes (c ∷ s) = let rest = c_bytes s in if c == 0 then [] else c ∷ rest

unfoldable pub lua_result_or_raise : SDispatchResult → LuaResult
lua_result_or_raise r =
    if r.success
    then returns []
    else raises (
        c_bytes
          (if is_empty r.error then codes "mru-switcher: plugin function failed" else r.error))

-- The arguments from the `i`-th on, after those that have been joined; or the place of one that is no text.
pub data Joined : Type 0 where
  joined : String → Joined
  no_string : ℕ → Joined

unfoldable pub join_args : ℕ → List (Option String) → String → Joined
join_args i [] args = joined args
join_args i (none ∷ xs) args = no_string i
join_args i (some s ∷ xs) args =
    join_args (suc i) xs (str_append (if ltb 1 i then str_append args " " else args) (c_str s))

-- The controller afterwards, and what Lua sees; `none` where the controller's code breaks a
-- precondition.
abbrev pub Called : SchedulerPort → Ports → Type 0
Called S P = Option (Option (SessionController S P) × LuaResult)

module _ {S : SchedulerPort} {P : Ports} where
  unfoldable pub cycle_joined : Option (SessionController S P) → Joined → Called S P
  unfolding dispatch_cycle lua_result_or_raise
  cycle_joined controller (no_string i) = some (
    controller,
    raises (codes "hl.plugin.mru.cycle: argument " ++ (to_string i ++ codes " must be a string")),
  )
  cycle_joined controller (joined args) =
      dispatch_cycle args controller >>= λ r. some (r.0, lua_result_or_raise r.1)

  unfoldable pub lua_cycle : List (Option String) → Option (SessionController S P) → Called S P
  unfolding join_args cycle_joined
  lua_cycle xs controller = cycle_joined controller (join_args 1 xs "")

  unfoldable pub lua_apply : Option (SessionController S P) → Called S P
  unfolding dispatch_apply lua_result_or_raise
  lua_apply controller = dispatch_apply controller >>= λ r. some (r.0, lua_result_or_raise r.1)

  unfoldable pub lua_cancel :
      Option (SessionController S P) → Option (SessionController S P) × LuaResult
  unfolding dispatch_cancel lua_result_or_raise
  lua_cancel controller = let (c, r) = dispatch_cancel controller in (c, lua_result_or_raise r)

  unfoldable pub lua_status : Scope → Option (SessionController S P) → LuaResult
  unfolding dispatch_status lua_result_or_raise
  lua_status default_scope controller =
      let r = dispatch_status default_scope controller in
      if r.success then returns (c_bytes r.error ∷ []) else lua_result_or_raise r
