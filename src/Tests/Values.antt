-- ===== src/Tests/Values.antt =====
-- The theorems on the value types, the selection, the snapshot and the history at concrete inputs.
use mru_switcher.Prelude.{Bool, true, false, [], ◌∷◌, contains}
use mru_switcher.Window.{WindowRef, window_eq, Scope, WindowMeta, FocusContext}
use mru_switcher.Snapshot.{Snapshot}
use mru_switcher.Tests.{term, web}

abbrev terminal : WindowMeta
terminal = record {
  monitor_id = 1;
  workspace_id = 4;
  mapped = true;
  hidden = false;
  app_class = "kitty";
}

abbrev at_mail : FocusContext
at_mail = record {
  has_focus = true;
  monitor_id = 1;
  workspace_id = 2;
  app_class = "thunderbird";
  visible_workspaces = 2 ∷ 4 ∷ [];
}

-- The mail window is gone.
abbrev live : WindowRef → Bool
live r = contains (term ∷ web ∷ []) r

abbrev left_windows : Snapshot
left_windows = record { windows = term ∷ web ∷ []; scope = Scope.global }
