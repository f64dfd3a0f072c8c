-- ===== src/Life/Conn.antt =====
-- src/core/connection.cpp, `conn_init`, `conn_close`, `sp_next` and `sp_finish_request`.
use evcp.Base.{
  ℕ, ◌-◌, ◌^◌, [], ◌∷◌, List, Option, none, some, Bool, false, Bytes, ltb, ◌==◌, if◌then◌else◌,
}
use evcp.Connection.Read.{Reading, opened, mybufsz}
use evcp.Response.{Response, compile_resp}
use evcp.Response.Send.{Source}
use evcp.Life.Blocks.{Pointer, null, live, freed, Blocks, first_blocks, close_blocks}

-- `conn_read`, `sp_process_request`, `sp_finish_request`, `sp_responce_senfile`, `conn_respond`, or a
-- command of the console
pub data Handler : Type 0 where
  reads processes_request finishes_request sends_file responds command : Handler

-- What `c->ev` waits for: nothing, bytes to read, room to write, or a moment.
pub data Event : Type 0 where
  idle : Event
  on_input on_output at_once : Handler → Event

-- `sp_conn_s`, with its request and its answer, the descriptors that are open for it, and what has
-- been written to its socket. A descriptor that is -1, or not set yet, is `none`.
pub record Conn : Type 0 where
  pub blocks : Blocks
  pub reading : Reading
  pub answer : Response
  pub source : Source
  pub handler : Handler
  pub event : Event
  pub sock : Option ℕ
  pub fd : Option ℕ
  pub files : List ℕ
  pub out : Bytes

-- What becomes of a connection in an event: it goes on; it has been closed, with what is left of its
-- blocks and descriptors, and what was sent; the handler does not come back; it writes behind the
-- end of a buffer; or it uses or loses memory that it must not.
pub data Outcome : Type 0 where
  goes_on : Conn → Outcome
  ended : Blocks → List ℕ → Bytes → Outcome
  hangs overruns faults : Outcome

-- An `int` that is stored in a `u_long`
abbrev pub u_long : Option ℕ → ℕ
u_long none = 2 ^ 64 - 1
u_long (some n) = n

-- What `SSL_new`, `SSL_set_fd` and `SSL_accept` give
pub record Tls : Type 0 where
  pub made : Bool
  pub fd_set : Bool
  pub accepted : Option ℕ

-- How `conn_init` ends. What it drops leaves the block of the connection or that of TLS, and its socket.
pub data Init : Type 0 where
  no_connection : Init
  dropped : Pointer → Pointer → Option ℕ → Init
  started : Conn → Init

abbrev pub open_files : Option ℕ → List ℕ
open_files none = []
open_files (some s) = s ∷ []

abbrev pub first_answer : Response
first_answer = record {
  buf = [];
  size = mybufsz;
  status = 200;
  sent = 0;
  needrefill = false;
  h_sent = false;
  h_out = [];
}

abbrev pub first_conn : Pointer → Option ℕ → Conn
first_conn ssl s = record {
  blocks = first_blocks ssl;
  reading = opened;
  answer = first_answer;
  source = record { left = []; fsize = 0; fread = 0 };
  handler = reads;
  event = on_input reads;
  sock = s;
  fd = none;
  files = open_files s;
  out = [];
}

-- `conn_init`, with what `accept` gives
unfoldable pub conn_init : Bool → Tls → Option ℕ → Init
conn_init secure tls s =
    if ltb (u_long s) 1
    then no_connection
    else if secure
    then if tls.made
      then if tls.fd_set
        then if ltb (u_long tls.accepted) 1
          then dropped freed live s
          else started (first_conn live s)
        else dropped freed live s
      else dropped live null s
    else started (first_conn null s)

-- `close(fd)`
abbrev pub close_file : Option ℕ → List ℕ → List ℕ
close_file none fs = fs
close_file (some fd) [] = []
close_file (some fd) (f ∷ fs) = if f == fd then fs else f ∷ close_file (some fd) fs

-- `conn_close`
unfoldable pub conn_close : Conn → Outcome
unfolding close_blocks
conn_close c = elim (close_blocks c.blocks) [
  | none ↦ faults
  | some b ↦ ended b (close_file c.fd c.files) c.out
]

-- `sp_next(c, h)`
abbrev pub next : Handler → Conn → Conn
next h c = record c { event = at_once h }

-- `sp_finish_request`
unfoldable pub finish_request : (ℕ → Bool) → Conn → Conn
unfolding compile_resp
finish_request realloc c = record c {
  answer = compile_resp realloc c.answer;
  handler = responds;
  event = on_output responds;
}
