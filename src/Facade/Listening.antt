-- ===== src/Facade/Listening.antt =====
-- The backend of a session and the socket of the overlay: src/plugin/plugin_overlay_wiring.cpp.
use mru_switcher.Prelude.{
  ◌≡◌, refl, sym, ap, ◌∙◌, subst, Bool, true, false, not, ◌||◌, some, if◌then◌else◌, if_cases,
  is_empty, codes, arith,
}
use mru_switcher.Config.{PluginConfig, external_ui, effective_ui_backend}
use mru_switcher.OverlayServer.{StartAnswers}
use mru_switcher.OverlaySocket.{HyprlandOverlaySocket, Loop, started}
use mru_switcher.OverlaySocket.Open.{Ensured, ensure_started-Ensured}
use mru_switcher.Facade.{
  SessionBackend, Facade, is_external, start_socket, try_start_overlay_socket, without_backend,
  create_session_backend,
}

abbrev pub is_overlay : SessionBackend → Bool
is_overlay (SessionBackend.border follows) = false
is_overlay SessionBackend.overlay = true
is_overlay SessionBackend.none_shown = false

start_socket-Ensured :
    (answers : StartAnswers) (host : Loop) (cfg : PluginConfig) (v : HyprlandOverlaySocket)
    → effective_ui_backend cfg ≡ external_ui
    → is_empty (codes cfg.external_socket) ≡ false
    → v.listen_source ≡ started v.server
    → Ensured (codes cfg.external_socket) (start_socket answers host cfg v)
unfolding start_socket
start_socket-Ensured answers host cfg v external some_path paired =
    if_cases (Ensured (codes cfg.external_socket))
      (not (is_external (effective_ui_backend cfg)) || is_empty (codes cfg.external_socket))
      (λ e. absurd (ground (arith, e, some_path, ap is_external external)))
      (λ _. ensure_started-Ensured (codes cfg.external_socket) answers host v some_path paired)

without_backend-socket :
    (f : Facade)
    → ((without_backend f).0.overlay_socket ≡ f.overlay_socket)
      × (is_overlay (without_backend f).1 ≡ false)
unfolding without_backend
without_backend-socket f = (ground arith, refl)

-- The choice after the attempt.
chosen :
    (g : Facade) (listens : Bool)
    → let r = (if listens then (g, SessionBackend.overlay) else without_backend g) in
      (r.0.overlay_socket ≡ g.overlay_socket) × (is_overlay r.1 ≡ listens)
chosen g true = (refl, refl)
chosen g false = without_backend-socket g

attempted :
    (answers : StartAnswers) (host : Loop) (f : Facade) (v : HyprlandOverlaySocket)
    → f.overlay_socket ≡ some v
    → let r = start_socket answers host f.config v in
      try_start_overlay_socket answers host f ≡ (record f { overlay_socket = some r.0 }, r.1)
unfolding try_start_overlay_socket
attempted answers host f v e = rw e refl

backend_after :
    (answers : StartAnswers) (host : Loop) (f : Facade)
    → effective_ui_backend f.config ≡ external_ui
    → let r = try_start_overlay_socket answers host f in
      create_session_backend answers host f
      ≡ (if r.1 then (r.0, SessionBackend.overlay) else without_backend r.0)
unfolding create_session_backend
backend_after answers host f e = rw (e, create_session_backend) refl

-- With the overlay configured on a path, and a socket that is watched where it listens: the session gets
-- the overlay's backend exactly when, after the choice, the server listens on that path and is watched;
-- otherwise it neither listens nor is watched.
pub create_session_backend-Ensured :
    (answers : StartAnswers) (host : Loop) (f : Facade) (v : HyprlandOverlaySocket)
    → effective_ui_backend f.config ≡ external_ui
    → is_empty (codes f.config.external_socket) ≡ false
    → f.overlay_socket ≡ some v
    → v.listen_source ≡ started v.server
    → let r = create_session_backend answers host f in
      (w : HyprlandOverlaySocket) × (r.0.overlay_socket ≡ some w)
      × Ensured (codes f.config.external_socket) (w, is_overlay r.1)
create_session_backend-Ensured answers host f v external some_path socket paired =
    let path = codes f.config.external_socket in
    let r = start_socket answers host f.config v in
    let g : Facade = record f { overlay_socket = some r.0 } in
    let (kept, is_told) = chosen g r.1 in
    let whole =
      backend_after answers host f external
      ∙ ap
          (λ (t : Facade × Bool).
            if t.1 then (t.0, SessionBackend.overlay) else without_backend t.0)
          (attempted answers host f v socket) in
    (
      r.0,
      ap (λ (t : Facade × SessionBackend). t.0.overlay_socket) whole ∙ kept,
      subst (λ b. Ensured path (r.0, b))
          (sym (ap (λ (t : Facade × SessionBackend). is_overlay t.1) whole ∙ is_told))
          (start_socket-Ensured answers host f.config v external some_path paired),
    )
