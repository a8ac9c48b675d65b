-- ===== src/Tests/Overlay.antt =====
-- The theorems on the overlay's server at concrete inputs.
use mru_switcher.Prelude.{ℕ, ◌≡◌, refl, true, false, List, [], ◌∷◌, ◌++◌, none, some, arith}
use mru_switcher.OverlayServer
use mru_switcher.OverlayServer.{OverlaySocketServer, RecvEnd, poll_client}
use mru_switcher.OverlayServer.Frames.{frames, polls, stream, polls-frames, poll_client-gone}

-- A server with a client, half of whose first line has arrived.
abbrev connected : OverlaySocketServer
connected = record {
  listen_fd = some 5;
  client_fd = some 6;
  path = 47 ∷ 116 ∷ [];
  handled = true;
  logging = false;
  recv_buf = 97 ∷ 98 ∷ [];
  dropped_lines = 0;
  lines = [];
  logs = 0;
  closed = [];
}

abbrev wakes : List (List (List ℕ))
wakes = ((99 ∷ 10 ∷ []) ∷ (10 ∷ 100 ∷ []) ∷ []) ∷ [] ∷ ((101 ∷ 10 ∷ 102 ∷ []) ∷ []) ∷ []

polls-frames_example :
    let d = polls wakes connected in
    let f = frames connected.recv_buf (stream wakes) in
    (d.lines ≡ connected.lines ++ f.0) × (d.recv_buf ≡ f.1) × (d.client_fd ≡ some 6)
unfolding OverlayServer.find_newline
polls-frames_example = polls-frames wakes connected 6 refl refl refl (omega arith)

frames_example :
    frames connected.recv_buf (stream wakes)
    ≡ ((97 ∷ 98 ∷ 99 ∷ []) ∷ (100 ∷ 101 ∷ []) ∷ [], 102 ∷ [])
frames_example = refl

poll_client-gone_example :
    let r = poll_client ((99 ∷ 10 ∷ []) ∷ []) RecvEnd.peer_closed connected in
    (r.1 ≡ false) × (r.0.client_fd ≡ none) × (r.0.recv_buf ≡ []) × (r.0.lines ≡ connected.lines)
poll_client-gone_example =
    poll_client-gone ((99 ∷ 10 ∷ []) ∷ []) RecvEnd.peer_closed connected 6 refl (λ e. ground arith)
