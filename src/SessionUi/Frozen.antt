-- ===== src/SessionUi/Frozen.antt =====
-- The backend of a session in src/plugin/session_ui.cpp, through what happens meanwhile.
use mru_switcher.Prelude.{ℕ, ◌≡◌, refl, ap, ◌∙◌, List, [], ◌∷◌, ◌++◌, none, some}
use mru_switcher.Snapshot.{Snapshot}
use mru_switcher.Ports.{UiEndReason}
use mru_switcher.SessionUi
use mru_switcher.SessionUi.{Backends, SessionUiBackendProxy}

-- What happens while a session is open.
pub data Happening (B : Backends) : Type 0 where
  reloaded : B.Config → Happening B
  selected : ℕ → Happening B

module _ {B : Backends} where
  unfoldable pub happen : Happening B → SessionUiBackendProxy B → SessionUiBackendProxy B
  unfolding SessionUi.on_selection_changed
  happen (reloaded cfg) p = record p { config = cfg }
  happen (selected i) p = SessionUi.on_selection_changed i p

  unfoldable pub happenings : List (Happening B) → SessionUiBackendProxy B → SessionUiBackendProxy B
  unfolding happen
  happenings [] p = p
  happenings (h ∷ hs) p = happenings hs (happen h p)

  -- What one backend sees of them.
  abbrev pub seen : List (Happening B) → B.Backend → B.Backend
  seen [] b = b
  seen (reloaded cfg ∷ hs) b = seen hs b
  seen (selected i ∷ hs) b = seen hs (B.on_selection_changed i b)

  ended-happenings :
      (hs : List (Happening B)) (reason : UiEndReason) (p : SessionUiBackendProxy B) (b : B.Backend)
      → p.active ≡ some b
      → let q = SessionUi.on_session_end reason (happenings hs p) in
        (q.active ≡ none) × (q.dropped ≡ p.dropped ++ B.on_session_end reason (seen hs b) ∷ [])
  unfolding SessionUi.on_session_end happenings happen SessionUi.on_selection_changed
  ended-happenings [] reason p b e = rw e (refl, refl)
  ended-happenings (reloaded cfg ∷ hs) reason p b e =
      ended-happenings hs reason (record p { config = cfg }) b e
  ended-happenings (selected i ∷ hs) reason p b e = rw e (
      ended-happenings hs reason (record p { active = some (B.on_selection_changed i b) })
        (B.on_selection_changed i b) refl)

  started_with :
      (s : Snapshot) (i : ℕ) (p : SessionUiBackendProxy B) (b : B.Backend)
      → B.make_backend p.config ≡ some b
      → let q = SessionUi.on_session_start s i p in
        (q.active ≡ some (B.on_session_start s i b)) × (q.dropped ≡ (SessionUi.reset p).dropped)
  unfolding SessionUi.on_session_start
  started_with s i p b e = rw e (refl, refl)

  -- A session sees one backend, the one that the factory makes of the configuration at its start,
  -- where it makes one: it is told of the start, of every selection and of the end, in order, whatever
  -- configurations are loaded meanwhile, and is then let go. One that a session before has left is let
  -- go first.
  pub on_session_end-happenings :
      (s : Snapshot) (i : ℕ) (hs : List (Happening B)) (reason : UiEndReason)
      (p : SessionUiBackendProxy B) (b : B.Backend)
      → B.make_backend p.config ≡ some b
      → let q =
          SessionUi.on_session_end reason (happenings hs (SessionUi.on_session_start s i p)) in
        (q.active ≡ none)
        × (q.dropped
            ≡ (SessionUi.reset p).dropped
              ++ B.on_session_end reason (seen hs (B.on_session_start s i b)) ∷ [])
  on_session_end-happenings s i hs reason p b e =
      let q = SessionUi.on_session_start s i p in
      let (active, dropped) = started_with s i p b e in
      let (gone, last) = ended-happenings hs reason q (B.on_session_start s i b) active in
      (
        gone,
        last
            ∙ ap (λ d. d ++ B.on_session_end reason (seen hs (B.on_session_start s i b)) ∷ [])
                dropped,
      )
