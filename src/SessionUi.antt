-- ===== src/SessionUi.antt =====
-- src/plugin/session_ui.cpp and src/plugin/external_overlay_ui.cpp: one user interface for each session,
-- and the one that speaks to an overlay.
pub mod Frozen
use mru_switcher.Prelude.{ℕ, Bool, true, false, List, [], ◌∷◌, ◌++◌, Option, none, some, Bytes, map}
use mru_switcher.Window.{WindowRef}
use mru_switcher.Snapshot.{Snapshot}
use mru_switcher.Ports.{UiEndReason}
use mru_switcher.Protocol.{
  OverlayWindowInfo, encode_session_start, encode_selection, encode_session_end,
}

-- The backends that the factory makes of a configuration; `none` where there is no factory, or it
-- throws or makes nothing. The calls of a backend do not throw.
pub record Backends : Type 1 where
  pub Config : Type 0
  pub Backend : Type 0
  pub make_backend : Config → Option Backend
  pub on_session_start : Snapshot → ℕ → Backend → Backend
  pub on_selection_changed : ℕ → Backend → Backend
  pub on_session_end : UiEndReason → Backend → Backend

-- The proxy, with the configuration of the plugin and the backends that it has let go, in order.
pub record SessionUiBackendProxy (B : Backends) : Type 0 where
  pub config : B.Config
  pub active : Option B.Backend
  pub dropped : List B.Backend

module _ {B : Backends} where
  -- `active_.reset()`
  abbrev pub reset : SessionUiBackendProxy B → SessionUiBackendProxy B
  reset p = record p {
    active = none;
    dropped = elim p.active [ none ↦ p.dropped | some b ↦ p.dropped ++ b ∷ [] ];
  }

  abbrev pub with_active :
      (B.Backend → B.Backend) → SessionUiBackendProxy B → SessionUiBackendProxy B
  with_active f p = elim p.active [ none ↦ p | some b ↦ record p { active = some (f b) } ]

  unfoldable pub on_session_start : Snapshot → ℕ → SessionUiBackendProxy B → SessionUiBackendProxy B
  on_session_start s index p =
      let q = reset p in
      with_active (B.on_session_start s index) (record q { active = B.make_backend q.config })

  unfoldable pub on_selection_changed : ℕ → SessionUiBackendProxy B → SessionUiBackendProxy B
  on_selection_changed index p = with_active (B.on_selection_changed index) p

  unfoldable pub on_session_end : UiEndReason → SessionUiBackendProxy B → SessionUiBackendProxy B
  on_session_end reason p = elim p.active [
    | none ↦ p
    | some b ↦ reset (with_active (B.on_session_end reason) p)
  ]

-- `ExternalOverlayUI`: the lines that it sends, through a transport that may drop them.
pub record OverlayTransport : Type 1 where
  pub World : Type 0
  pub send : Bytes → World → World × Bool

module _ (T : OverlayTransport) (resolve : Option (WindowRef → OverlayWindowInfo)) where
  unfoldable pub info_of : WindowRef → OverlayWindowInfo
  info_of ref = elim resolve [
    | none ↦ record { address = ref.address; title = []; window_class = [] }
    | some f ↦ record (f ref) { address = ref.address }
  ]

  unfoldable pub external_session_start : Snapshot → ℕ → T.World → T.World
  unfolding info_of encode_session_start
  external_session_start s index w =
      (T.send (encode_session_start (map info_of s.windows) index) w).0

  unfoldable pub external_selection_changed : ℕ → T.World → T.World
  unfolding encode_selection
  external_selection_changed index w = (T.send (encode_selection index) w).0

  unfoldable pub external_session_end : UiEndReason → T.World → T.World
  unfolding encode_session_end
  external_session_end reason w = (T.send (encode_session_end reason) w).0
