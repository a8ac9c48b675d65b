-- ===== src/OverlayServer/Frames.antt =====
-- The lines of a stream of bytes, and that the server hands over these, however they arrive.
use mathlib.Core.List.{append_assoc, append-nil}
use mru_switcher.Prelude.{
  ℕ, zero, suc, ◌+◌, ◌≤◌, ◌<◌, ◌≡◌, ◌≢◌, refl, ap, subst, ◌∙◌, sym, true, false, List, [], ◌∷◌,
  ◌++◌, none, some, arith, if◌then◌else◌, Option-cases, Bool-cases, inl, inr, ltb, ◌==◌, is_empty,
  length, length-append,
}
use mru_switcher.OverlayServer.{
  OverlaySocketServer, max_line_bytes, find_newline, hand_over, dispatch_loop, dispatch_buffer,
  receive, poll_client, RecvEnd, close_client,
}

-- A line that is complete, if it is not empty, before the others.
abbrev pub put : List ℕ → List (List ℕ) × List ℕ → List (List ℕ) × List ℕ
put line (ls, rest) = (if is_empty line then ls else line ∷ ls, rest)

-- The lines of a stream that are complete, and the bytes after the last newline; `word` is what was
-- read of the first line.
abbrev pub frames : List ℕ → List ℕ → List (List ℕ) × List ℕ
frames word [] = ([], word)
frames word (c ∷ cs) = if c == 10 then put word (frames [] cs) else frames (word ++ c ∷ []) cs

frames-none : (cs w : List ℕ) → find_newline cs ≡ none → frames w cs ≡ ([], w ++ cs)
unfolding find_newline
frames-none [] w h = ap (λ (x : List ℕ). ([], x)) (sym (append-nil w))
frames-none (c ∷ cs) w h = elim (Option-cases (find_newline cs)) [
  | inl e ↦ ground (arith, frames-none cs (w ++ c ∷ []) e, append_assoc w (c ∷ []) cs)
  | inr (p, e) ↦ ground arith
]

pub frames-some :
    (cs w a b : List ℕ)
    → find_newline cs ≡ some (a, b)
    → (frames w cs ≡ put (w ++ a) (frames [] b)) × (length b < length cs)
unfolding find_newline
frames-some [] w a b h = ground arith
frames-some (c ∷ cs) w a b h = elim (Bool-cases (c == 10)) [
  | inl e ↦ ground (arith, append-nil w)
  | inr e ↦ elim (Option-cases (find_newline cs)) [
    | inl f ↦ ground arith
    | inr ((x, y), f) ↦
        ground (arith, frames-some cs (w ++ c ∷ []) x y f, append_assoc w (c ∷ []) x)
  ]
]

-- What the rest of the state is after lines were handed over.
abbrev Delivered : List (List ℕ) × List ℕ → OverlaySocketServer → OverlaySocketServer → Type 0
Delivered f v d =
    (d.recv_buf ≡ f.1)
    × (d.lines ≡ (if v.handled then v.lines ++ f.0 else v.lines))
    × (d.client_fd ≡ v.client_fd)
    × (d.handled ≡ v.handled)

no_newline :
    (v : OverlaySocketServer)
    → find_newline v.recv_buf ≡ none
    → Delivered (frames [] v.recv_buf) v v
no_newline v h = ground (arith, frames-none v.recv_buf [] h, append-nil v.lines)

one_line :
    (v d : OverlaySocketServer) (a b : List ℕ)
    → find_newline v.recv_buf ≡ some (a, b)
    → Delivered (frames [] b) (hand_over a (record v { recv_buf = b })) d
    → Delivered (frames [] v.recv_buf) v d
unfolding hand_over
one_line v d a b h k =
    ground (arith, frames-some v.recv_buf [] a b h, append_assoc v.lines (a ∷ []) (frames [] b).0)

pub buffer-hand_over :
    (a : List ℕ) (v : OverlaySocketServer) → (hand_over a v).recv_buf ≡ v.recv_buf
unfolding hand_over
buffer-hand_over a v = ground arith

dispatch_loop-frames :
    (n : ℕ) (v : OverlaySocketServer)
    → length v.recv_buf ≤ n
    → Delivered (frames [] v.recv_buf) v (dispatch_loop n v)
unfolding dispatch_loop
dispatch_loop-frames zero v room = elim (Option-cases (find_newline v.recv_buf)) [
  | inl e ↦ no_newline v e
  | inr ((a, b), e) ↦ absurd (omega (arith, (frames-some v.recv_buf [] a b e).1))
]
dispatch_loop-frames (suc n) v room = elim (Option-cases (find_newline v.recv_buf)) [
  | inl e ↦ rw (e, dispatch_loop) (no_newline v e)
  | inr ((a, b), e) ↦
      let u = hand_over a (record v { recv_buf = b }) in
      let same = buffer-hand_over a (record v { recv_buf = b }) in
      let shorter = (frames-some v.recv_buf [] a b e).1 in
      rw (e, dispatch_loop)
        (one_line v (dispatch_loop n u) a b e (
          subst (λ (x : List ℕ). Delivered (frames [] x) u (dispatch_loop n u)) same
            (dispatch_loop-frames n u (rw same (omega arith)))))
]

-- The lines of a stream are those of its first part, then those of the second after what is left.
frames-append :
    (cs ds w : List ℕ)
    → frames w (cs ++ ds)
      ≡ ((frames w cs).0 ++ (frames (frames w cs).1 ds).0, (frames (frames w cs).1 ds).1)
frames-append [] ds w = refl
frames-append (c ∷ cs) ds w =
    ground (arith, frames-append cs ds [], frames-append cs ds (w ++ c ∷ []))

find_newline-snoc :
    (w : List ℕ) (c : ℕ)
    → find_newline w ≡ none
    → (c == 10) ≡ false
    → find_newline (w ++ c ∷ []) ≡ none
unfolding find_newline
find_newline-snoc [] c h e = ground arith
find_newline-snoc (x ∷ w) c h e = elim (Option-cases (find_newline w)) [
  | inl f ↦ ground (arith, find_newline-snoc w c f e)
  | inr (p, f) ↦ ground arith
]

find_newline-rest : (cs w : List ℕ) → find_newline w ≡ none → find_newline (frames w cs).1 ≡ none
unfolding find_newline
find_newline-rest [] w h = h
find_newline-rest (c ∷ cs) w h = elim (Bool-cases (c == 10)) [
  | inl e ↦ ground (arith, find_newline-rest cs [] refl)
  | inr e ↦ ground (arith, find_newline-rest cs (w ++ c ∷ []) (find_newline-snoc w c h e))
]

length-rest : (cs w : List ℕ) → length (frames w cs).1 ≤ length w + length cs
length-rest [] w = omega arith
length-rest (c ∷ cs) w = elim (Bool-cases (c == 10)) [
  | inl e ↦ ground (arith, length-rest cs [])
  | inr e ↦ ground (arith, length-rest cs (w ++ c ∷ []), length-append w (c ∷ []))
]

-- All bytes of the chunks.
abbrev pub joined : List (List ℕ) → List ℕ
joined [] = []
joined (c ∷ cs) = c ++ joined cs

receive-joined :
    (chunks : List (List ℕ)) (v : OverlaySocketServer)
    → length v.recv_buf + length (joined chunks) ≤ max_line_bytes
    → receive chunks v ≡ record v { recv_buf = v.recv_buf ++ joined chunks }
unfolding receive
receive-joined [] v room = ground (arith, append-nil v.recv_buf)
receive-joined (c ∷ cs) v room =
    let n = length-append v.recv_buf c in
    let m = length-append c (joined cs) in
    let small : ltb max_line_bytes (length (v.recv_buf ++ c)) ≡ false = ground arith in
    rw (small, receive)
      (receive-joined cs (record v { recv_buf = v.recv_buf ++ c }) (omega arith)
        ∙ ap (λ (b : List ℕ). record v { recv_buf = b }) (append_assoc v.recv_buf c (joined cs)))

-- The peer's bytes in wakes, each of which reads some chunks and then finds nothing more.
abbrev pub polls : List (List (List ℕ)) → OverlaySocketServer → OverlaySocketServer
polls [] v = v
polls (chunks ∷ wakes) v = polls wakes (poll_client chunks RecvEnd.would_block v).0

abbrev pub stream : List (List (List ℕ)) → List ℕ
stream [] = []
stream (chunks ∷ wakes) = joined chunks ++ stream wakes

polled :
    (chunks : List (List ℕ)) (v : OverlaySocketServer) (fd : ℕ)
    → v.client_fd ≡ some fd
    → (poll_client chunks RecvEnd.would_block v).0 ≡ dispatch_buffer (receive chunks v)
unfolding poll_client
polled chunks v fd c = ground arith

stream_start : (w cs : List ℕ) → find_newline w ≡ none → frames [] (w ++ cs) ≡ frames w cs
stream_start w cs n = frames-append w cs [] ∙ ground (arith, frames-none w [] n)

one_poll :
    (chunks : List (List ℕ)) (v : OverlaySocketServer) (fd : ℕ)
    → v.client_fd ≡ some fd
    → v.handled ≡ true
    → find_newline v.recv_buf ≡ none
    → length v.recv_buf + length (joined chunks) ≤ max_line_bytes
    → let d = (poll_client chunks RecvEnd.would_block v).0 in
      let f = frames v.recv_buf (joined chunks) in
      (d.lines ≡ v.lines ++ f.0) × (d.recv_buf ≡ f.1) × (d.client_fd ≡ some fd) × (d.handled ≡ true)
unfolding dispatch_buffer
one_poll chunks v fd c h n room =
    let u : OverlaySocketServer = record v { recv_buf = v.recv_buf ++ joined chunks } in
    let (b, l, k, g) = dispatch_loop-frames (length u.recv_buf) u (omega arith) in
    rw (polled chunks v fd c, receive-joined chunks v room)
      (ground (arith, b, l, k, g, stream_start v.recv_buf (joined chunks) n))

-- A server with a client and a handler, whose buffer holds no newline: however a peer's bytes are cut
-- into chunks, and these into wakes, the server hands over the lines
-- of the whole stream that are complete and not empty, in order, and keeps the bytes after the last
-- newline, while what it holds and what arrives are within the bound of a line.
pub polls-frames :
    (wakes : List (List (List ℕ))) (v : OverlaySocketServer) (fd : ℕ)
    → v.client_fd ≡ some fd
    → v.handled ≡ true
    → find_newline v.recv_buf ≡ none
    → length v.recv_buf + length (stream wakes) ≤ max_line_bytes
    → let d = polls wakes v in
      let f = frames v.recv_buf (stream wakes) in
      (d.lines ≡ v.lines ++ f.0) × (d.recv_buf ≡ f.1) × (d.client_fd ≡ some fd)
polls-frames [] v fd c h n room = (sym (append-nil v.lines), refl, c)
polls-frames (chunks ∷ wakes) v fd c h n room =
    let total = length-append (joined chunks) (stream wakes) in
    let d = (poll_client chunks RecvEnd.would_block v).0 in
    let (l, b, k, g) = one_poll chunks v fd c h n (omega arith) in
    let rest = find_newline-rest (joined chunks) v.recv_buf n in
    let shorter = length-rest (joined chunks) v.recv_buf in
    let (l', b', k') = polls-frames wakes d fd k g (rw b rest) (rw b (omega arith)) in
    let whole = frames-append (joined chunks) (stream wakes) v.recv_buf in
    ground (
      arith,
      l',
      b',
      k',
      l,
      b,
      whole,
      append_assoc v.lines (frames v.recv_buf (joined chunks)).0
          (frames (frames v.recv_buf (joined chunks)).1 (stream wakes)).0,
    )

receive-lines :
    (chunks : List (List ℕ)) (v : OverlaySocketServer) → (receive chunks v).lines ≡ v.lines
unfolding receive
receive-lines [] v = refl
receive-lines (c ∷ cs) v = receive-lines cs _ ∙ ground arith

-- When the peer of a server with a client closes the stream or it fails, the client is gone and its bytes with it: no line is
-- handed over, not even one that was complete.
pub poll_client-gone :
    (chunks : List (List ℕ)) (last : RecvEnd) (v : OverlaySocketServer) (fd : ℕ)
    → v.client_fd ≡ some fd
    → last ≢ RecvEnd.would_block
    → let r = poll_client chunks last v in
      (r.1 ≡ false) × (r.0.client_fd ≡ none) × (r.0.recv_buf ≡ []) × (r.0.lines ≡ v.lines)
unfolding poll_client close_client
poll_client-gone chunks RecvEnd.would_block v fd c h = absurd (h refl)
poll_client-gone chunks RecvEnd.peer_closed v fd c h = ground (arith, receive-lines chunks v)
poll_client-gone chunks RecvEnd.hard_error v fd c h = ground (arith, receive-lines chunks v)
