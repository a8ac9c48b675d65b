-- ===== src/Scope.antt =====
-- src/domain/scope_predicate.cpp: which windows a switching session offers.
pub mod Matches
use text.Mathlib.Text.{◌==◌ as str_eq}
use mru_switcher.Prelude.{Bool, true, false, ◌||◌, not, ◌==◌, if◌then◌else◌, contains, nat_eq}
use mru_switcher.Window.{Scope, global, monitor, workspace, visible, app, WindowMeta, FocusContext}

-- The `switch` over the scope.
unfoldable pub in_scope : Scope → WindowMeta → FocusContext → Bool
in_scope global c f = true
in_scope monitor c f = not f.has_focus || c.monitor_id == f.monitor_id
in_scope workspace c f = not f.has_focus || c.workspace_id == f.workspace_id
in_scope visible c f = contains f.visible_workspaces c.workspace_id
in_scope app c f =
    if not f.has_focus || str_eq f.app_class "" then true else str_eq c.app_class f.app_class

unfoldable pub scope_matches : Scope → WindowMeta → FocusContext → Bool
unfolding in_scope
scope_matches scope candidate focus =
    if not candidate.mapped || candidate.hidden then false else in_scope scope candidate focus
