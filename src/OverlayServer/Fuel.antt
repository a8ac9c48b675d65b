-- ===== src/OverlayServer/Fuel.antt =====
-- The loop over the lines of the buffer in src/plugin/overlay_socket_server.cpp, and its fuel.
use mru_switcher.Prelude.{
  ℕ, zero, suc, ◌≤◌, ◌<◌, ◌≡◌, refl, Option-cases, inl, inr, List, [], none, some, length, arith,
}
use mru_switcher.OverlayServer.{OverlaySocketServer, find_newline, hand_over, dispatch_loop}
use mru_switcher.OverlayServer.Frames.{buffer-hand_over, frames-some}

dispatch_loop-stops :
    (n : ℕ) (v : OverlaySocketServer) → find_newline v.recv_buf ≡ none → dispatch_loop n v ≡ v
unfolding dispatch_loop
dispatch_loop-stops zero v e = refl
dispatch_loop-stops (suc n) v e = rw (e, dispatch_loop) refl

-- A turn takes a byte away at least.
turn_shorter :
    (v : OverlaySocketServer) (a b : List ℕ)
    → find_newline v.recv_buf ≡ some (a, b)
    → length (hand_over a (record v { recv_buf = b })).recv_buf < length v.recv_buf
turn_shorter v a b e =
    rw (buffer-hand_over a (record v { recv_buf = b })) (frames-some v.recv_buf [] a b e).1

-- With fuel for every byte of the buffer, the loop over its lines ends because no newline is left, and
-- more fuel changes nothing.
pub dispatch_loop-ends :
    (n : ℕ) (v : OverlaySocketServer)
    → length v.recv_buf ≤ n
    → (find_newline (dispatch_loop n v).recv_buf ≡ none)
      × (dispatch_loop (suc n) v ≡ dispatch_loop n v)
unfolding dispatch_loop
dispatch_loop-ends zero v h = elim (Option-cases (find_newline v.recv_buf)) [
  | inl e ↦ (e, dispatch_loop-stops 1 v e)
  | inr ((a, b), e) ↦ absurd (omega (arith, (frames-some v.recv_buf [] a b e).1))
]
dispatch_loop-ends (suc n) v h = elim (Option-cases (find_newline v.recv_buf)) [
  | inl e ↦ rw (dispatch_loop-stops (suc n) v e, dispatch_loop-stops (suc (suc n)) v e) (e, refl)
  | inr ((a, b), e) ↦
      rw (e, dispatch_loop)
        (dispatch_loop-ends n (hand_over a (record v { recv_buf = b }))
          (omega (arith, turn_shorter v a b e)))
]
