-- ===== src/OverlayServer.antt =====
-- src/plugin/overlay_socket_server.cpp: the socket to which a peer connects to draw the overlay. Bytes
-- are numbers; what the system calls answer is an argument, and a call that is interrupted and made
-- again is one call.
pub mod Frames
pub mod Fuel
use mru_switcher.Prelude.{
  ℕ, zero, suc, ◌+◌, ◌*◌, ◌%◌, ◌^◌, Bool, true, false, not, ◌||◌, List, [], ◌∷◌, ◌++◌, Option, none,
  some, ◌>>=◌, if◌then◌else◌, ltb, leb, ◌==◌, is_empty, length,
}

abbrev pub max_line_bytes : ℕ
max_line_bytes = 64 * 1024

-- The server, with the lines handed to its handler, the messages logged and the descriptors closed,
-- the oldest first. `handled` and `logging` say that there is a handler and a sink.
pub record OverlaySocketServer : Type 0 where
  pub listen_fd : Option ℕ
  pub client_fd : Option ℕ
  pub path : List ℕ
  pub handled : Bool
  pub logging : Bool
  pub recv_buf : List ℕ
  pub dropped_lines : ℕ
  pub lines : List (List ℕ)
  pub logs : ℕ
  pub closed : List ℕ

-- What `socket`, `bind`, `fchmod` and `listen` answer.
pub record StartAnswers : Type 0 where
  pub socket : Option ℕ
  pub bound : Bool
  pub mode_set : Bool
  pub listening : Bool

unfoldable pub start : List ℕ → StartAnswers → OverlaySocketServer → OverlaySocketServer × Bool
start path answers v = if is_empty path then (v, false) else elim v.listen_fd [
  | some fd ↦ (v, false)
  | none ↦ if leb 108 (length path) then (v, false) else elim answers.socket [
    | none ↦ (v, false)
    | some fd ↦
        if not answers.bound
        then (record v { closed = v.closed ++ fd ∷ [] }, false)
        else let logs =
            if answers.mode_set then v.logs else if v.logging then v.logs + 1 else v.logs in
          if not answers.listening
          then (record v { closed = v.closed ++ fd ∷ []; logs = logs }, false)
          else (record v { listen_fd = some fd; path = path; handled = true; logs = logs }, true)
  ]
]

unfoldable pub close_client : OverlaySocketServer → OverlaySocketServer
close_client v = elim v.client_fd [
  | none ↦ record v { recv_buf = [] }
  | some fd ↦ record v { client_fd = none; closed = v.closed ++ fd ∷ []; recv_buf = [] }
]

unfoldable pub stop : OverlaySocketServer → OverlaySocketServer
unfolding close_client
stop v =
    let c = close_client v in
    record c {
      listen_fd = none;
      closed = elim c.listen_fd [ none ↦ c.closed | some fd ↦ c.closed ++ fd ∷ [] ];
      path = [];
      recv_buf = [];
      handled = false;
      logging = false;
    }

-- The loop over the descriptors that `accept4` answers.
unfoldable pub accept_loop :
    List ℕ → OverlaySocketServer × Option ℕ → OverlaySocketServer × Option ℕ
accept_loop [] acc = acc
accept_loop (fd ∷ fds) (v, accepted) = accept_loop fds (elim v.client_fd [
  | none ↦ (record v { client_fd = some fd }, some fd)
  | some c ↦ (record v { closed = v.closed ++ fd ∷ [] }, accepted)
])

unfoldable pub poll_accept : List ℕ → OverlaySocketServer → OverlaySocketServer × Option ℕ
unfolding accept_loop
poll_accept fds v = elim v.listen_fd [ none ↦ (v, none) | some fd ↦ accept_loop fds (v, none) ]

-- One turn of the loop that appends what `recv` read.
unfoldable pub receive : List (List ℕ) → OverlaySocketServer → OverlaySocketServer
receive [] v = v
receive (chunk ∷ chunks) v = receive chunks (
    if ltb max_line_bytes (length (v.recv_buf ++ chunk))
    then record v {
      recv_buf = [];
      dropped_lines = v.dropped_lines + 1;
      logs = if v.logging then v.logs + 1 else v.logs;
    }
    else record v { recv_buf = v.recv_buf ++ chunk })

-- `recv_buf_.find('\n')`: what is before the first newline, and what is after it.
unfoldable pub find_newline : List ℕ → Option (List ℕ × List ℕ)
find_newline [] = none
find_newline (c ∷ cs) =
    let rest = find_newline cs in
    if c == 10 then some ([], cs) else (rest >>= λ p. some (c ∷ p.0, p.1))

unfoldable pub hand_over : List ℕ → OverlaySocketServer → OverlaySocketServer
hand_over line v =
    if is_empty line || not v.handled then v else record v { lines = v.lines ++ line ∷ [] }

-- The loop, for as many turns as the fuel allows.
unfoldable pub dispatch_loop : ℕ → OverlaySocketServer → OverlaySocketServer
unfolding hand_over
dispatch_loop zero v = v
dispatch_loop (suc n) v = elim (find_newline v.recv_buf) [
  | none ↦ v
  | some (line, tail) ↦ dispatch_loop n (hand_over line (record v { recv_buf = tail }))
]

-- Every turn takes a byte away, so that the length of the buffer is fuel enough.
unfoldable pub dispatch_buffer : OverlaySocketServer → OverlaySocketServer
unfolding dispatch_loop
dispatch_buffer v = dispatch_loop (length v.recv_buf) v

-- What ends the reading: nothing more for now, the end of the stream, or an error.
pub data RecvEnd : Type 0 where
  would_block peer_closed hard_error : RecvEnd

unfoldable pub poll_client :
    List (List ℕ) → RecvEnd → OverlaySocketServer → OverlaySocketServer × Bool
unfolding receive dispatch_buffer close_client
poll_client chunks last v = elim v.client_fd [
  | none ↦ (v, false)
  | some fd ↦ elim last [
    | RecvEnd.would_block ↦ (dispatch_buffer (receive chunks v), true)
    | RecvEnd.peer_closed ↦ (close_client (receive chunks v), false)
    | RecvEnd.hard_error ↦ (close_client (receive chunks v), false)
  ]
]

-- What `send` answers: how many bytes went, `again` (interrupted or full), or an error.
pub data SendAnswer : Type 0 where
  sent : ℕ → SendAnswer
  again failed : SendAnswer

unfoldable pub send_line : List ℕ → SendAnswer → OverlaySocketServer → OverlaySocketServer × Bool
unfolding close_client
send_line line answer v = elim v.client_fd [
  | none ↦ (record v { dropped_lines = v.dropped_lines + 1 }, false)
  | some fd ↦ elim answer [
    | sent n ↦
        if n == length line + 1
        then (v, true)
        else (close_client (record v { dropped_lines = v.dropped_lines + 1 }), false)
    | again ↦ (record v { dropped_lines = v.dropped_lines + 1 }, false)
    | failed ↦ (close_client (record v { dropped_lines = v.dropped_lines + 1 }), false)
  ]
]
