-- ===== src/Life/Serves.antt =====
-- src/core/connection.cpp: a request for a file, from its bytes to the answer's.
use evcp.Base.{
  ℕ, suc, ◌≡◌, ◌≢◌, refl, ap, ◌∙◌, [], ◌∷◌, ◌++◌, List, none, some, true, Bytes, length, arith,
}
use evcp.Connection.Process.{Asked, Stat, send_path}
use evcp.Connection.Read
use evcp.Connection.Read.{Reading, ReadEnd, bytes, processes, again_later, conn_read}
use evcp.Connection.Read.Pieces.{conn_reads}
use evcp.Life.Arrivals.{reading_conn, to_process, arrivals, first-Receives, read_step, run-arrivals}
use evcp.Response.{Response, compile_resp, add_charset}
use evcp.Response.Layout.{head_lines, compile_resp-head, compile_resp-sent, compile_resp-Fits}
use evcp.Response.Send.{Source}
use evcp.Life.Streams.{Streams, run-Streams, run-head}
use evcp.Response.Status.{std_resp}
use evcp.Life.Blocks.{Blocks, null, Released, first_blocks}
use evcp.Life.Conn.{ended, first_conn, first_answer}
use evcp.Life.Events.{World, Input, received, moment, dispatch, run, asked}
use evcp.Life.Asks.{file_answer, Asks}
use evcp.Life.Steps.{run-goes_on, to_send, process_step, socket_closed}

-- What is sent for a file: the head, and all of the file
abbrev pub file_text : World → Stat → ℕ → Asked → Bytes
file_text w st fd q =
    (std_resp 200 ++ head_lines (add_charset (file_answer w.system q st fd).h_out))
    ++ w.content (send_path q.uri)

-- The file and the buffer with the head, when the first byte of the file is not read yet
abbrev pub file_source : World → Stat → Asked → Source
file_source w st q = record { left = w.content (send_path q.uri); fsize = st.st_size; fread = 0 }

abbrev pub file_head : World → Stat → ℕ → Asked → Response
file_head w st fd q =
    compile_resp w.realloc
      (record first_answer { status = 200; h_out = (file_answer w.system q st fd).h_out })

-- A request that comes in any number of pieces, of which all but the last one leave the connection waiting
-- and the last one completes it (so that the buffer has not been moved by `realloc` on the way); for a
-- file that is there, can be opened, is not the one that the client has, and holds as many bytes as
-- `stat` says, one or more; with the file read and sent in any number of parts, each of which one
-- `write` takes whole; when the memory for the answer suffices, and the descriptor of the file is not
-- that of the socket: the socket gets the head and the whole file, each byte once and in its order, the
-- connection is closed with none of its blocks left, and what stays open is the file.
pub run-serves :
    (w : World) (sock : ℕ) (pieces : List Bytes) (last : Bytes) (c r : Reading) (st : Stat) (fd : ℕ)
    (is : List Input)
    → ((n : ℕ) → w.realloc n ≡ true)
    → conn_reads w.regrow w.rounds pieces Read.opened ≡ again_later c
    → conn_read w.regrow w.rounds (bytes last) c ≡ processes r
    → Asks w.system (asked r) st fd
    → length (w.content (send_path (asked r).uri)) ≡ st.st_size
    → Streams is (file_source w st (asked r)) (file_head w st (suc fd) (asked r))
    → sock ≢ suc fd
    → (b : Blocks) × ((run w
            (arrivals pieces (received (bytes last) ∷ moment ∷ is))
            (first_conn null (some sock))
          ≡ ended b (suc fd ∷ []) (file_text w st (suc fd) (asked r)))
        × Released b)
unfolding dispatch
run-serves w sock pieces last c r st fd is grants waiting read asks size streams other =
    let inputs = received (bytes last) ∷ moment ∷ is in
    let (fd0, (b0, (e0, h0))) =
      run-arrivals w sock inputs pieces none Read.opened c (first_blocks null) (first-Receives sock)
        waiting in
    let (b1, (e1, (o1, n1))) = read_step w sock fd0 last c b0 h0 r read in
    let c1 = to_process sock r b1 in
    let (b2, (e2, o2)) = process_step w st fd c1 asks refl o1 n1 in
    let c2 = to_send w st fd r c1 b2 in
    let q = asked r in
    let file = file_source w st q in
    let head = file_head w st (suc fd) q in
    let (fits, made) = compile_resp-Fits w.realloc c2.answer (omega arith) in
    let (b, (e3, left)) =
      run-Streams w is file head c2 [] streams o2 made (compile_resp-sent w.realloc c2.answer)
        (omega (arith, size)) fits in
    let text : head.buf ++ file.left ≡ file_text w st (suc fd) q =
      ap (λ (x : Bytes). x ++ file.left) (compile_resp-head w.realloc grants c2.answer refl) in
    (
      b,
      (
        e0
            ∙ run-goes_on w (received (bytes last)) _ (reading_conn sock fd0 c b0) c1 e1
            ∙ run-goes_on w moment _ c1 c2 e2
            ∙ run-head w is file head c2.answer c2 [] streams
            ∙ e3
            ∙ ap (λ (fs : List ℕ). ended b fs (head.buf ++ file.left))
                (socket_closed sock (suc fd) other)
            ∙ ap (ended b (suc fd ∷ [])) text,
        left,
      ),
    )
