-- ===== src/Tests/Lives.antt =====
-- Connections from their beginning to their end, at concrete inputs.
use evcp.Base.{
  ◌<◌, ◌≤◌, List, Option, ℕ, ap, ◌≡◌, refl, none, some, codes, Bool, true, false, arith, [], ◌∷◌,
  Bytes, length, beq,
}
use evcp.Base.Maps.{at, lookup, insert, bytes_lt}
use evcp.Connection.Headers.{c_str, store_header}
use evcp.Connection.Mime.{strncmp, getmime, find_type, types_map, type_rows}
use evcp.Connection.Process.{Stat, MgrEnd, is_command, get_etag, int_text, decimal, char_sum}
use evcp.Connection.Read
use evcp.Connection.Read.{Reading, processes, conn_read, closed, bytes, ReadEnd}
use evcp.Request.Chars.{is_usual}
use evcp.Request.Chars.{lowcase}
use evcp.Request.Method.{method_of}
use evcp.Request.Line.{parse_request_line, step_line, line_done}
use evcp.Request.Header.{parse_header_line, step_header}
use evcp.Connection.Read.Pieces.{conn_reads}
use evcp.Life.Arrivals.{arrivals}
use evcp.Life.Asks.{Asks}
use evcp.Life.Blocks.{Blocks, null, live, Released, IsOpen}
use evcp.Life.Conn.{Conn, conn_init, first_conn, ended, faults, Tls}
use evcp.Life.Events.{World, Input, received, moment, file_read, written, asked, run}
use evcp.Life.Phases.{IsSound}
use evcp.Life.Serves.{file_source, file_head, file_text, run-serves}
use evcp.Life.Streams.{Streams}
use evcp.Response.{Response, compile_resp, fill_resp, add_charset}
use evcp.Response.Status.{std_resp, client_resp}
use evcp.Response.Send.{FileEnd, Source, send_file}
use evcp.Life.Sound.{run-IsSound}
use evcp.Life.Tls.{respond_tls, wrote, want_read, ssl_error, respond_tls-faults}

abbrev a_file : Stat
a_file = record { is_dir = false; st_size = 3; st_mode = 33188; st_mtime = 1500000000; st_ino = 7 }

abbrev a_world : World
a_world = record {
  realloc = λ n. true;
  regrow = λ n. Read.in_place;
  rounds = 10;
  system = record {
    stat = λ path. some a_file;
    open_file = λ path. some 8;
    filetime = λ t. codes "now";
    now = 1500000001;
    mgr = λ q a. (MgrEnd.other, a);
  };
  content = λ path. codes "abc";
}

abbrev no_tls : Tls
no_tls = record { made = false; fd_set = false; accepted = none }

run-IsSound_example :
    IsSound (run a_world (received closed ∷ received closed ∷ []) (first_conn null (some 5)))
unfolding conn_init
run-IsSound_example =
    run-IsSound a_world (received closed ∷ received closed ∷ []) no_tls (some 5)
      (first_conn null (some 5)) (λ n e. cc) refl

abbrev first_piece : Bytes
first_piece = codes "GET /a HT"

abbrev last_piece : Bytes
last_piece = codes "TP/1.0\r\nA: b\r\n\r\n"

abbrev reading_of : ReadEnd → Reading
reading_of (processes r) = r
reading_of (ReadEnd.again_later r) = r
reading_of _ = Read.opened

abbrev half_read : Reading
half_read = reading_of (conn_read a_world.regrow 10 (bytes first_piece) Read.opened)

first_piece-waits :
    conn_reads a_world.regrow 10 (first_piece ∷ []) Read.opened ≡ ReadEnd.again_later half_read
unfolding conn_read parse_request_line step_line line_done method_of is_usual
first_piece-waits = refl

abbrev read_request : Reading
read_request = reading_of (conn_read a_world.regrow 10 (bytes last_piece) half_read)

is_processes : ReadEnd → Bool
is_processes (processes r) = true
is_processes _ = false

processes_lem : (e : ReadEnd) → is_processes e ≡ true → e ≡ processes (reading_of e)
unfolding is_processes
processes_lem (processes r) h = refl
processes_lem (ReadEnd.again_later r) h = absurd (cc)
processes_lem (ReadEnd.finishes r) h = absurd (cc)
processes_lem ReadEnd.closes h = absurd (cc)
processes_lem ReadEnd.overruns h = absurd (cc)
processes_lem ReadEnd.spins h = absurd (cc)
processes_lem ReadEnd.dangles h = absurd (cc)

last_piece-processes :
    conn_read a_world.regrow 10 (bytes last_piece) half_read ≡ processes read_request
unfolding conn_read parse_request_line step_line parse_header_line step_header lowcase is_usual
    line_done method_of is_processes
last_piece-processes = processes_lem (conn_read a_world.regrow 10 (bytes last_piece) half_read) refl

read_request-Asks : Asks a_world.system (asked read_request) a_file 7
unfolding conn_read parse_request_line step_line parse_header_line step_header lowcase is_usual
    line_done method_of asked is_command strncmp get_etag int_text decimal char_sum at lookup insert
    beq bytes_lt c_str store_header
read_request-Asks = record {
  no_command = refl;
  exists = refl;
  no_dir = refl;
  not_known = refl;
  opens = refl;
  not_empty = omega arith;
}

-- The file is read in two calls, and sent in one.
abbrev two_reads : List (Option ℕ)
two_reads = some 2 ∷ some 1 ∷ []

abbrev whole_file : FileEnd × Source × Response
whole_file =
    send_file two_reads (file_source a_world a_file (asked read_request))
      (file_head a_world a_file 8 (asked read_request))

abbrev file_inputs : List Input
file_inputs = file_read two_reads ∷ written (length whole_file.2.buf ∷ []) ∷ []

file_inputs-Streams :
    Streams file_inputs
      (file_source a_world a_file (asked read_request))
      (file_head a_world a_file 8 (asked read_request))
unfolding conn_read parse_request_line step_line parse_header_line step_header lowcase is_usual
    line_done method_of asked is_command strncmp get_etag int_text decimal char_sum at lookup insert
    beq bytes_lt c_str store_header send_file compile_resp fill_resp add_charset std_resp
    client_resp getmime find_type types_map type_rows
file_inputs-Streams =
    let first_read : 2 ≤ 3 = omega arith in
    let second_read : 1 ≤ 1 = omega arith in
    let sent : 0 < 187 = omega arith in
    Streams.last_part two_reads (file_source a_world a_file (asked read_request)) whole_file.1
      (file_head a_world a_file 8 (asked read_request)) whole_file.2 (first_read, (second_read, tt))
      (ap (λ (e : FileEnd). (e, whole_file.1, whole_file.2)) refl) refl sent

run-serves_example :
    (b : Blocks) × ((run a_world
          (arrivals (first_piece ∷ []) (received (bytes last_piece) ∷ moment ∷ file_inputs))
          (first_conn null (some 5))
        ≡ ended b (8 ∷ []) (file_text a_world a_file 8 (asked read_request)))
      × Released b)
run-serves_example =
    run-serves a_world 5 (first_piece ∷ []) last_piece half_read read_request a_file 7 file_inputs
      (λ n. refl) first_piece-waits last_piece-processes read_request-Asks refl file_inputs-Streams
      (λ e. omega arith)

abbrev answering : Conn
answering =
    let c = first_conn live (some 5) in record c { answer = record c.answer { buf = codes "HTTP" } }

answering-IsOpen : IsOpen answering.blocks
answering-IsOpen = ground arith

respond_tls-faults_example : respond_tls (wrote 2 ∷ want_read ∷ ssl_error ∷ []) answering ≡ faults
respond_tls-faults_example =
    respond_tls-faults (wrote 2 ∷ want_read ∷ []) [] answering answering-IsOpen (refl, (refl, refl))
