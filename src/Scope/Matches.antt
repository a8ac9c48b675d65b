-- ===== src/Scope/Matches.antt =====
-- What the scopes promise, stated without the code's tests.
use text.Mathlib.TextEquality.{eq_iff}
use mru_switcher.Prelude.{◌≡◌, ◌≢◌, ◌↔◌, true, false, arith, contains, nat_eq}
use mru_switcher.Window.{Scope, global, monitor, workspace, visible, app, WindowMeta, FocusContext}
use mru_switcher.Scope.{scope_matches}

-- A window belongs to a scope: monitor, workspace and class are compared with the focused window's,
-- and only if there is one (and, for the class, if it has one).
abbrev pub Belongs : Scope → WindowMeta → FocusContext → Type 0
Belongs global c f = Unit {0}
Belongs monitor c f = f.has_focus ≡ true → c.monitor_id ≡ f.monitor_id
Belongs workspace c f = f.has_focus ≡ true → c.workspace_id ≡ f.workspace_id
Belongs visible c f = contains f.visible_workspaces c.workspace_id ≡ true
Belongs app c f = f.has_focus ≡ true → f.app_class ≢ "" → c.app_class ≡ f.app_class

abbrev pub Offered : Scope → WindowMeta → FocusContext → Type 0
Offered s c f = (c.mapped ≡ true) × (c.hidden ≡ false) × Belongs s c f

-- A window matches a scope exactly when it is mapped, not hidden, and belongs to the scope.
pub scope_matches_iff :
    (s : Scope) (c : WindowMeta) (f : FocusContext) → (scope_matches s c f ≡ true) ↔ Offered s c f
unfolding scope_matches
scope_matches_iff global c f = ground arith
scope_matches_iff monitor c f = ground arith
scope_matches_iff workspace c f = ground arith
scope_matches_iff visible c f = ground arith
scope_matches_iff app c f = ground (arith, eq_iff f.app_class "", eq_iff c.app_class f.app_class)

-- Every scope offers a part of what the global scope offers, and with no focused window the scopes
-- monitor, workspace and app offer all of it.
pub scope_matches-global :
    (s : Scope) (c : WindowMeta) (f : FocusContext)
    → (scope_matches s c f ≡ true → scope_matches global c f ≡ true)
      × (s ≢ visible → f.has_focus ≡ false → scope_matches s c f ≡ scope_matches global c f)
unfolding scope_matches
scope_matches-global global c f = ground arith
scope_matches-global monitor c f = ground arith
scope_matches-global workspace c f = ground arith
scope_matches-global visible c f = ground arith
scope_matches-global app c f = ground arith
