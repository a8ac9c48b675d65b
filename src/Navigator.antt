-- ===== src/Navigator.antt =====
-- src/plugin/hypr/hypr_workspace_navigator.cpp: the workspace of a selected window is shown on its
-- monitor for the time of the session.
pub mod Restore
use mru_switcher.Prelude.{
  ℕ, Bool, true, false, not, ◌&&◌, ◌||◌, List, [], ◌∷◌, ◌++◌, Option, none, some, ◌==◌,
  if◌then◌else◌, ℤ, pos, negsuc, int_eq,
}
use mru_switcher.Window.{WindowRef}
use mru_switcher.Ports.{UiEndReason, applied, cancelled}

-- The registry and the compositor. A window, a monitor and a workspace stand for the object of the
-- host, a workspace by its id; `none` is the null pointer. `change` is the host's `changeWorkspace`.
pub record Screens : Type 1 where
  pub World : Type 0
  pub resolve : World → WindowRef → Option ℕ
  pub workspace : World → ℕ → Option ℤ
  pub monitor : World → ℕ → Option ℕ
  pub active : World → ℕ → Option ℤ
  pub change : ℕ → ℤ → World → World

pub record MonitorCapture : Type 0 where
  pub monitor : ℕ
  pub pre_elevation_id : ℤ

pub record WorkspaceNavigator (S : Screens) : Type 0 where
  pub world : S.World
  pub touches : List MonitorCapture

abbrev pub is_negative : ℤ → Bool
is_negative (pos n) = false
is_negative (negsuc n) = true

-- The monitor shows the workspace.
abbrev pub shows : Option ℤ → ℤ → Bool
shows none ws = false
shows (some id) ws = int_eq id ws

-- The id that is captured, and -1 where the monitor shows none.
abbrev pub id_or_invalid : Option ℤ → ℤ
id_or_invalid none = negsuc 0
id_or_invalid (some id) = id

-- The loop that finds a capture of the monitor.
unfoldable pub seen : ℕ → List MonitorCapture → Bool
seen mon [] = false
seen mon (c ∷ cs) = c.monitor == mon || seen mon cs

-- What the monitor shows is captured once.
unfoldable pub touch : ℕ → Option ℤ → List MonitorCapture → List MonitorCapture
unfolding seen
touch mon active cs =
    if seen mon cs
    then cs
    else cs ++ record { monitor = mon; pre_elevation_id = id_or_invalid active } ∷ []

module _ (S : Screens) where
  -- One turn of the loop of `end`. A monitor that shows no workspace is left.
  unfoldable pub restore_monitor : MonitorCapture → S.World → S.World
  restore_monitor c w = if is_negative c.pre_elevation_id then w else elim (S.active w c.monitor) [
    | none ↦ w
    | some id ↦ if int_eq id c.pre_elevation_id then w else S.change c.monitor c.pre_elevation_id w
  ]

  unfoldable pub restore_monitors : List MonitorCapture → S.World → S.World
  unfolding restore_monitor
  restore_monitors [] w = w
  restore_monitors (c ∷ cs) w = restore_monitors cs (restore_monitor c w)

module _ {S : Screens} where
  unfoldable pub begin : WorkspaceNavigator S → WorkspaceNavigator S
  begin v = record v { touches = [] }

  unfoldable pub elevate_on : ℕ → ℤ → WorkspaceNavigator S → WorkspaceNavigator S
  unfolding touch
  elevate_on mon ws v = if shows (S.active v.world mon) ws then v else record v {
    touches = touch mon (S.active v.world mon) v.touches;
    world = S.change mon ws v.world;
  }

  unfoldable pub ensure_visible : WindowRef → WorkspaceNavigator S → WorkspaceNavigator S
  unfolding elevate_on
  ensure_visible ref v = elim (S.resolve v.world ref) [
    | none ↦ v
    | some w ↦ elim (S.workspace v.world w) [
      | none ↦ v
      | some ws ↦ elim (S.monitor v.world w) [ none ↦ v | some mon ↦ elevate_on mon ws v ]
    ]
  ]

  unfoldable pub finish : UiEndReason → WorkspaceNavigator S → WorkspaceNavigator S
  unfolding restore_monitors
  finish UiEndReason.cancelled v = record v {
    world = restore_monitors S v.touches v.world;
    touches = [];
  }
  finish UiEndReason.applied v = record v { touches = [] }
