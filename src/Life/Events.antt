-- ===== src/Life/Events.antt =====
-- src/core/connection.cpp: the events of a connection without TLS, and the handlers that they start.
use evcp.Base.{
  ℕ, [], ◌∷◌, ◌++◌, List, Option, none, some, Bool, true, false, Bytes, ltb, ◌==◌, if◌then◌else◌,
}
use evcp.Base.Maps.{StrMap}
use evcp.Connection.Process
use evcp.Connection.Process.{System, Asked, Answer, send_path, is_command, process_request}
use evcp.Connection.Read
use evcp.Connection.Read.{
  Reading, Got, failed, closed, bytes, ReadEnd, again_later, processes, finishes, closes, spins,
  dangles, Regrown, read_into, conn_read,
}
use evcp.Console.State.{Next, finish_request, same_handler}
use evcp.Request.{Code, ok, again, header_done, error}
use evcp.Request.Line.{parse_request_line}
use evcp.Response.{Response, compile_resp}
use evcp.Response.Send
use evcp.Response.Send.{Source, respond, send_file}
use evcp.Life.Blocks.{Pointer, null, live, Blocks, assign, ◌>>=◌}
use evcp.Life.Conn.{
  Handler, reads, processes_request, finishes_request, sends_file, responds, command, Event,
  on_input, on_output, at_once, Conn, Outcome, goes_on, hangs, overruns, faults, conn_close, next,
}
use evcp.Life.Conn

-- What the handlers call: the allocator for the answers, and for the buffer of the request; the rounds for
-- the loop over the header lines, the system, and what the files hold.
pub record World : Type 0 where
  pub realloc : ℕ → Bool
  pub regrow : ℕ → Regrown
  pub rounds : ℕ
  pub system : System
  pub content : Bytes → Bytes

-- What comes: bytes or an end on the socket; a moment; what `write` returns, call for call; a moment
-- with what `read` returns on the file, call for call; or a moment with what a command does.
pub data Input : Type 0 where
  received : Got → Input
  moment : Input
  written : List ℕ → Input
  file_read : List (Option ℕ) → Input
  answered : Next → Response → Input

abbrev pub is_ok : Code → Bool
is_ok ok = true
is_ok again = false
is_ok header_done = false
is_ok (error e) = false

abbrev pub if_unset : Option ℕ → Bool → Bool
if_unset none b = b
if_unset (some p) b = false

-- Whether `sp_parse_request_line` is called, and returns `NGX_OK`
unfoldable pub line_ok : Reading → Bool
unfolding parse_request_line
line_ok d = if_unset d.request.request_end (is_ok (parse_request_line d.buf d.request).0)

-- Whether `sp_parse_request_line` returns `NGX_OK` in this event, so that the maps are made.
unfoldable pub line_parsed : (ℕ → Regrown) → Got → Reading → Bool
unfolding read_into line_ok
line_parsed regrow failed r = false
line_parsed regrow closed r = false
line_parsed regrow (bytes b) r = elim (read_into regrow b r) [ none ↦ false | some d ↦ line_ok d ]

-- `p = new …`, if the code comes there
abbrev pub assign_if : Bool → Pointer → Option Pointer
assign_if true p = assign p
assign_if false p = some p

abbrev pub is_made : Option StrMap → Bool
is_made none = false
is_made (some m) = true

-- The maps that `conn_read` makes: those of the request line, and those behind the last header line
unfoldable pub line_blocks : Bool → Reading → Blocks → Option Blocks
unfolding assign
line_blocks made r b = do
  list ← assign_if made b.list
  get_vars ← assign_if (if made then is_made r.get_vars else false) b.get_vars
  some (record b { list = list; get_vars = get_vars })

unfoldable pub head_blocks : Reading → Blocks → Option Blocks
unfolding assign
head_blocks r b = do
  post_vars ← assign_if (is_made r.post) b.post_vars
  cookies ← assign b.cookies
  some (record b { post_vars = post_vars; cookies = cookies })

abbrev pub keep_going : {A : Type 0} → Option A → (A → Conn) → Outcome
keep_going none k = faults
keep_going (some b) k = goes_on (k b)

-- The connection behind `conn_read`, which sets the status in the answer
abbrev pub with_reading : Reading → Conn → Conn
with_reading r c = record c { reading = r; answer = record c.answer { status = r.status } }

-- How `conn_read` ends, with the blocks that the request line has made; a pointer into a buffer that has
-- moved is one into memory that has been freed.
unfoldable pub read_ends : Bool → ReadEnd → Conn → Outcome
unfolding conn_close line_blocks head_blocks
read_ends made (again_later r) c =
    keep_going (line_blocks made r c.blocks) (λ b. record (with_reading r c) { blocks = b })
read_ends made (processes r) c =
    keep_going (line_blocks made r c.blocks >>= head_blocks r)
      (λ b. next processes_request (record (with_reading r c) { blocks = b }))
read_ends made (finishes r) c =
    keep_going (line_blocks made r c.blocks)
      (λ b. next finishes_request (record (with_reading r c) { blocks = b }))
read_ends made closes c = conn_close c
read_ends made Read.overruns c = overruns
read_ends made spins c = hangs
read_ends made dangles c = faults

-- `conn_read`
unfoldable pub read_event : World → Got → Conn → Outcome
unfolding conn_read line_parsed read_ends
read_event w got c =
    read_ends (line_parsed w.regrow got c.reading) (conn_read w.regrow w.rounds got c.reading)
      (record c { fd = c.sock })

-- The request, as `sp_process_request` looks at it
unfoldable pub asked : Reading → Asked
asked r = elim r.line [
  | none ↦ record { uri = []; exten = none; headers = r.list }
  | some l ↦ record { uri = l.uri; exten = l.exten; headers = r.list }
]

-- The new `fsendpath`, which is freed again if the file is not sent because of its tag, or cannot be opened
unfoldable pub path_pointer : System → Asked → Answer → Pointer
path_pointer sys q a = elim (sys.stat (send_path q.uri)) [
  | none ↦ live
  | some st ↦
      if st.is_dir
      then live
      else if a.status == 304
      then null
      else elim a.fsend [ none ↦ null | some fd ↦ if ltb fd 1 then null else live ]
]

-- `fsendpath` behind the function, which a command leaves alone
unfoldable pub path_after : System → Asked → Answer → Pointer → Option Pointer
unfolding is_command path_pointer assign
path_after sys q a p =
    if is_command q.uri then some p else assign p >>= λ x. some (path_pointer sys q a)

abbrev pub with_file : Option ℕ → List ℕ → List ℕ
with_file none fs = fs
with_file (some fd) fs = fd ∷ fs

-- The handler of `sp_next`; `mgrProcess` has called it with the command.
abbrev pub next_handler : Process.Handler → Handler
next_handler Process.sp_finish_request = finishes_request
next_handler Process.sp_responce_senfile = sends_file
next_handler Process.returned = command

-- What `sp_process_request` leaves of a connection
abbrev pub processed : World → Asked → Answer → Blocks → Conn → Conn
processed w q a b c = record c {
  blocks = b;
  answer = record c.answer { status = a.status; h_out = a.h_out };
  source = record { left = w.content (send_path q.uri); fsize = a.fsize; fread = a.fread };
  handler = next_handler a.handler;
  event = at_once (next_handler a.handler);
  files = with_file a.fsend c.files;
}

-- `sp_process_request`
unfoldable pub process_event : World → Conn → Outcome
unfolding process_request path_after asked
process_event w c =
    let q = asked c.reading in
    let a = process_request w.system q c.answer.h_out in
    keep_going (path_after w.system q a c.blocks.fsendpath)
      (λ p. processed w q a (record c.blocks { fsendpath = p }) c)

-- `sp_responce_senfile`
unfoldable pub file_event : World → List (Option ℕ) → Conn → Outcome
unfolding compile_resp send_file conn_close
file_event w ss c =
    let (how, f, r) = send_file ss c.source (compile_resp w.realloc c.answer) in
    let c' = record c { source = f; answer = r } in
    elim how [
      | Send.drains ↦ goes_on (record c' { event = on_output responds })
      | Send.read_error ↦ conn_close c'
      | Send.reading ↦ hangs
    ]

-- `conn_respond`
unfoldable pub respond_event : List ℕ → Conn → Outcome
unfolding respond conn_close
respond_event ws c =
    let (how, r, out) = respond ws c.answer in
    let c' = record c { answer = r; out = c.out ++ out } in
    elim how [
      | Send.closed ↦ conn_close c'
      | Send.refills ↦ goes_on (next c.handler c')
      | Send.failed ↦ conn_close c'
      | Send.blocks ↦ hangs
    ]

-- A command of the console, which goes on with its answer or waits for another turn
abbrev pub command_event : Next → Response → Conn → Conn
command_event finish_request r c =
    next finishes_request (record c { answer = r; handler = finishes_request })
command_event same_handler r c = next command (record c { answer = r })

-- libevent starts the handler of the event that has come; nothing else comes.
unfoldable pub dispatch : World → Event → Input → Conn → Outcome
unfolding read_event process_event Conn.finish_request file_event respond_event
dispatch w (on_input reads) (received got) c = read_event w got c
dispatch w (at_once processes_request) moment c = process_event w c
dispatch w (at_once finishes_request) moment c = goes_on (Conn.finish_request w.realloc c)
dispatch w (at_once sends_file) (file_read ss) c = file_event w ss c
dispatch w (on_output responds) (written ws) c = respond_event ws c
dispatch w (at_once responds) (written ws) c = respond_event ws c
dispatch w (at_once command) (answered n r) c = goes_on (command_event n r c)
dispatch w _ i c = goes_on c

-- One event after the other, until the connection is closed
unfoldable pub run : World → List Input → Conn → Outcome
unfolding dispatch
run w [] c = goes_on c
run w (i ∷ is) c = elim (dispatch w c.event i c) [
  | goes_on c' ↦ run w is c'
  | Conn.ended b fs out ↦ Conn.ended b fs out
  | hangs ↦ hangs
  | overruns ↦ overruns
  | faults ↦ faults
]
