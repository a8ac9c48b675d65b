-- ===== src/Source.antt =====
-- src/plugin/hypr/hypr_window_source.cpp and hypr_focus_gateway.cpp: what the compositor offers to a
-- session, and how it focuses a window.
pub mod Members
pub mod Scanned
pub mod Answer
pub mod Eligible
use Prim.Native.String.{String}
use mathlib.Core.List.{reverse}
use mru_switcher.Prelude.{
  ℕ, Bool, true, false, not, ◌&&◌, List, [], ◌∷◌, ◌++◌, Option, none, some, if◌then◌else◌, filter,
  contains, nat_eq, ◌≤◌, ◌≡◌, length,
}
use mru_switcher.Window.{WindowRef, Scope, WindowMeta, FocusContext}
use mru_switcher.Scope.{scope_matches}
use mru_switcher.Registry.{
  Windows, WindowIdentityRegistry, register_window, resolve, live_ref, live_refs_newest_first,
}
use mru_switcher.Merge.{merge_mru_order}
use mru_switcher.Ports.{Ports, FocusResult, FocusOutcome}

-- A monitor: the workspace on it, and the special workspace shown over it.
pub record MonitorView : Type 0 where
  pub active_workspace : ℕ
  pub active_special : Option ℕ

-- What the window source and the focus gateway ask of the compositor. `history` is its own list of
-- focused windows, the oldest first, and may be missing; `monitors` may hold null pointers. A focus
-- call announces windows as active, each of which the listener registers. Two windows that are
-- alive at one address are one window.
pub record Desktop : Type 1 where
  pub windows : Windows
  pub alive-unique :
      (s : windows.State) (v w : windows.Window)
      → windows.alive s v ≡ true
      → windows.alive s w ≡ true
      → windows.address_of v ≡ windows.address_of w
      → v ≡ w
  pub monitors : windows.State → List (Option MonitorView)
  pub history : windows.State → Option (List windows.Window)
  pub focus_window : windows.State → Option windows.Window
  pub monitor_id : windows.State → windows.Window → ℕ
  pub workspace_id : windows.State → windows.Window → ℕ
  pub is_mapped : windows.State → windows.Window → Bool
  pub is_hidden : windows.State → windows.Window → Bool
  pub on_special_workspace : windows.State → windows.Window → Bool
  pub app_class : windows.State → windows.Window → String
  pub full_window_focus : windows.State → windows.Window → windows.State × List windows.Window
  pub burst : ℕ
  pub announced-le-burst :
      (s : windows.State) (w : windows.Window) → length (full_window_focus s w).1 ≤ burst

module _ (D : Desktop) where
  abbrev H : Windows
  H = D.windows

  -- The compositor and the registry.
  abbrev pub World : Type 0
  World = D.windows.State × WindowIdentityRegistry D.windows

  unfoldable pub is_candidate : D.windows.State → D.windows.Window → Bool
  is_candidate s w = D.is_mapped s w && not (D.is_hidden s w)

  unfoldable pub shown_workspaces : List (Option MonitorView) → List ℕ
  shown_workspaces [] = []
  shown_workspaces (none ∷ ms) = shown_workspaces ms
  shown_workspaces (some m ∷ ms) =
      m.active_workspace
      ∷ (elim m.active_special [ none ↦ [] | some id ↦ id ∷ [] ] ++ shown_workspaces ms)

  unfoldable pub current_focus : D.windows.State → FocusContext
  unfolding shown_workspaces
  current_focus s = elim (D.focus_window s) [
    | none ↦ record {
      has_focus = false;
      monitor_id = 0;
      workspace_id = 0;
      app_class = "";
      visible_workspaces = shown_workspaces (D.monitors s);
    }
    | some w ↦ record {
      has_focus = true;
      monitor_id = D.monitor_id s w;
      workspace_id = D.workspace_id s w;
      app_class = D.app_class s w;
      visible_workspaces = shown_workspaces (D.monitors s);
    }
  ]

  unfoldable pub derive_meta : D.windows.State → D.windows.Window → FocusContext → WindowMeta
  derive_meta s w focus = record {
    monitor_id = D.monitor_id s w;
    workspace_id = D.workspace_id s w;
    mapped = D.is_mapped s w;
    hidden =
        D.on_special_workspace s w && not (contains focus.visible_workspaces (D.workspace_id s w));
    app_class = D.app_class s w;
  }

  -- `scope_matches(scope, derive_meta(w, focus), focus)`
  unfoldable pub in_scope : D.windows.State → Scope → D.windows.Window → Bool
  unfolding current_focus derive_meta
  in_scope s scope w = scope_matches scope (derive_meta s w (current_focus s)) (current_focus s)

  -- The loop over the compositor's history, from the newest window: the registry and the list so far.
  unfoldable pub scan :
      D.windows.State
      → Scope
      → List D.windows.Window
      → WindowIdentityRegistry D.windows × List WindowRef
      → WindowIdentityRegistry D.windows × List WindowRef
  unfolding is_candidate in_scope
  scan s scope [] acc = acc
  scan s scope (w ∷ ws) (r, fallback) =
      let q = register_window D.windows s w r in
      scan s scope ws (
        if D.windows.alive s w && is_candidate s w
        then (q.0, (if in_scope s scope w then fallback ++ q.1 ∷ [] else fallback))
        else (r, fallback))

  -- The test of the other two loops.
  unfoldable pub offered :
      D.windows.State → Scope → WindowIdentityRegistry D.windows → WindowRef → Bool
  unfolding is_candidate in_scope
  offered s scope r ref = elim (resolve D.windows s ref r) [
    | none ↦ false
    | some w ↦ is_candidate s w && in_scope s scope w
  ]

  unfoldable pub scanned : Scope → World → WindowIdentityRegistry D.windows × List WindowRef
  unfolding scan
  scanned scope (s, r) = elim (D.history s) [
    | none ↦ (r, [])
    | some entries ↦ scan s scope (reverse entries) (r, [])
  ]

  unfoldable pub candidates : List WindowRef → Scope → World → World × List WindowRef
  unfolding scanned offered
  candidates order scope (s, r) =
      let (r', seen) = scanned scope (s, r) in
      let fallback = seen ++ filter (offered s scope r') (live_refs_newest_first D.windows r') in
      let primary = filter (offered s scope r') order in ((s, r'), merge_mru_order primary fallback)

  unfoldable pub is_valid : World → WindowRef → Bool
  is_valid (s, r) ref = elim (resolve D.windows s ref r) [ none ↦ false | some w ↦ true ]

  unfoldable pub focused : World → Option WindowRef
  focused (s, r) = elim (D.focus_window s) [ none ↦ none | some w ↦ live_ref D.windows w r ]

  -- The listener of `window.active`: it registers each window that is announced.
  unfoldable pub announce :
      D.windows.State
      → List D.windows.Window
      → WindowIdentityRegistry D.windows
      → WindowIdentityRegistry D.windows × List WindowRef
  announce s [] r = (r, [])
  announce s (w ∷ ws) r =
      let (r', ref) = register_window D.windows s w r in
      let (last, refs) = announce s ws r' in (last, ref ∷ refs)

  unfoldable pub focus : WindowRef → World → FocusOutcome World
  unfolding announce
  focus ref (s, r) = elim (resolve D.windows s ref r) [
    | none ↦ record { result = FocusResult.invalid_target; world = (s, r); activated = [] }
    | some w ↦
        let (s', ws) = D.full_window_focus s w in
        let (r', refs) = announce s' ws r in
        record { result = FocusResult.applied; world = (s', r'); activated = refs }
  ]
