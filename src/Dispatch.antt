-- ===== src/Dispatch.antt =====
-- src/plugin/plugin_dispatch.cpp, src/plugin/status_format.cpp and the handler of commands in
-- src/plugin/plugin_overlay_wiring.cpp and src/plugin/hypr/hyprland_overlay_socket.cpp: what users and peers ask of the session controller. An
-- answer is `none` where the controller's code breaks a precondition.
pub mod Peer
use Prim.Native.String.{String, ◌++◌ as str_append}
use mru_switcher.Prelude.{
  ℕ, Bool, true, false, not, ◌&&◌, List, [], ◌∷◌, Option, none, some, ◌>>=◌, if◌then◌else◌, Bytes,
  codes, ◌++◌, to_string,
}
use mru_switcher.Window.{Scope}
use mru_switcher.Scheduler.{SchedulerPort}
use mru_switcher.Snapshot.{Snapshot, size}
use mru_switcher.Ports.{Ports}
use mru_switcher.Config.{scope_name}
use mru_switcher.DispatchArgs.{parse_cycle_args}
use mru_switcher.Session.Defs.{
  SessionController, SessionEndReason, applied, user_cancel, no_windows, invalid_selection,
  focus_failed, plugin_shutdown, CommandResult, cycle, select_index,
}
use mru_switcher.Session.Apply
use mru_switcher.Protocol.{Command, CommandType, select, apply, cancel, parse_command}

pub record SDispatchResult : Type 0 where
  pub success : Bool
  pub error : Bytes

abbrev pub ok_result : SDispatchResult
ok_result = record { success = true; error = [] }

abbrev pub err_result : Bytes → SDispatchResult
err_result error = record { success = false; error = error }

abbrev pub to_result : CommandResult → SDispatchResult
to_result r = if r.ok then ok_result else err_result (codes r.error)

unfoldable pub end_reason_name : SessionEndReason → Bytes
end_reason_name SessionEndReason.applied = codes "Applied"
end_reason_name SessionEndReason.user_cancel = codes "UserCancel"
end_reason_name SessionEndReason.no_windows = codes "NoWindows"
end_reason_name SessionEndReason.invalid_selection = codes "InvalidSelection"
end_reason_name SessionEndReason.focus_failed = codes "FocusFailed"
end_reason_name SessionEndReason.plugin_shutdown = codes "PluginShutdown"

abbrev pub last_end_name : Option SessionEndReason → Bytes
last_end_name none = codes "none"
last_end_name (some reason) = end_reason_name reason

unfoldable pub format_status : Bool → ℕ → ℕ → String → ℕ → Option SessionEndReason → Bytes
unfolding to_string end_reason_name
format_status active index size scope session_id last_end_reason =
    codes "active="
    ++ ((if active then codes "true" else codes "false")
        ++ (codes " index="
            ++ (to_string index
                ++ (codes " size="
                    ++ (to_string size
                        ++ (codes " scope="
                            ++ (codes scope
                                ++ (codes " session="
                                    ++ (to_string session_id
                                        ++ (codes " last_end="
                                            ++ last_end_name last_end_reason))))))))))

-- The controller, if the plugin is initialised, and the answer.
abbrev pub Answered : SchedulerPort → Ports → Type 0
Answered S P = Option (SessionController S P) × SDispatchResult

abbrev pub not_initialized : SDispatchResult
not_initialized = err_result (codes "mru-switcher: not initialized")

module _ {S : SchedulerPort} {P : Ports} where
  abbrev pub answered : SessionController S P × CommandResult → Answered S P
  answered (c, r) = (some c, to_result r)

  unfoldable pub dispatch_cycle : String → Option (SessionController S P) → Option (Answered S P)
  unfolding parse_cycle_args cycle
  dispatch_cycle args controller =
      let parsed = parse_cycle_args args in
      if not parsed.ok
      then some (controller, err_result (codes parsed.error))
      else elim controller [
        | none ↦ some (none, not_initialized)
        | some c ↦ cycle parsed.dir parsed.scope c >>= λ r. some (answered r)
      ]

  unfoldable pub dispatch_apply : Option (SessionController S P) → Option (Answered S P)
  unfolding Apply.apply
  dispatch_apply none = some (none, not_initialized)
  dispatch_apply (some c) = Apply.apply c >>= λ r. some (answered r)

  unfoldable pub dispatch_cancel : Option (SessionController S P) → Answered S P
  unfolding Apply.cancel
  dispatch_cancel none = (none, not_initialized)
  dispatch_cancel (some c) = answered (Apply.cancel c)

  -- The status of a session, where one is active and has a list, and of none.
  abbrev pub status_of : Scope → Bool → Option Snapshot → SessionController S P → Bytes
  status_of default_scope false snapshot c =
      format_status false 0 0 (scope_name default_scope) c.session_id c.last_end_reason
  status_of default_scope true none c =
      format_status false 0 0 (scope_name default_scope) c.session_id c.last_end_reason
  status_of default_scope true (some s) c =
      format_status true c.index (size s) (scope_name s.scope) c.session_id c.last_end_reason

  unfoldable pub dispatch_status : Scope → Option (SessionController S P) → SDispatchResult
  unfolding format_status scope_name
  dispatch_status default_scope none = not_initialized
  dispatch_status default_scope (some c) = record {
    success = true;
    error = status_of default_scope c.active c.snapshot c;
  }

  -- A command of a peer; its answer is dropped.
  unfoldable pub overlay_command_handler :
      Command → SessionController S P → Option (SessionController S P)
  unfolding select_index Apply.apply Apply.cancel
  overlay_command_handler cmd c = elim cmd.type [
    | select ↦ some (select_index cmd.index c).0
    | apply ↦ Apply.apply c >>= λ r. some r.0
    | cancel ↦ some (Apply.cancel c).0
  ]

  -- The lambda that the server is given: a line that is no command is ignored.
  unfoldable pub on_command :
      Option Command → SessionController S P → Option (SessionController S P)
  unfolding overlay_command_handler
  on_command none c = some c
  on_command (some cmd) c = overlay_command_handler cmd c

  unfoldable pub on_line : Bytes → SessionController S P → Option (SessionController S P)
  unfolding on_command parse_command
  on_line line c = on_command (parse_command line) c
