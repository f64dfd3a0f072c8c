-- ===== src/Tests/Starts.antt =====
-- The start of the server, its database, its log, the pages and the programs, at concrete inputs.
use evcp.Base.{
  arith, ◌<◌, ◌≤◌, ℕ, ◌≡◌, ◌≢◌, ◌↔◌, refl, none, some, codes, true, false, [], ◌∷◌, ◌++◌, List,
  Bytes, drop, map, beq,
}
use evcp.Base.Maps.{at, lookup, insert, bytes_lt}
use evcp.Config.{defaults, load_lines, cs, set_all, default_rows}
use evcp.Connection.Headers.{c_str}
use evcp.Console.Containers.{container_list, words_of}
use evcp.Console.Containers.Output.{HasShort, container_list-runs}
use evcp.Console.Programs.{Programs, Shell, waits, short_line}
use evcp.Console.State.{Services, Conn, set_state}
use evcp.Database.{statement, values}
use evcp.Database.Setup.{Engine, check_all, statements, user_query}
use evcp.Database.Setup.Asked.{check_all-asks}
use evcp.Database.Statements.{select_users}
use evcp.Log.Files.{Disk, Moment, Logger, delete_old_logs, write}
use evcp.Log.Lines.{AddsLine, write-AddsLine}
use evcp.Log.Old.{removable, delete_old_logs-unlinked}
use evcp.Program.{Fits, grow, run_program, run_all, pieces}
use evcp.Response.{Response}
use evcp.Session.{empty}
use evcp.Startup.{Boot, main, serves, crashes, ci}
use evcp.Startup.Ports.{main-serves}

abbrev a_disk : Disk
a_disk = record {
  own_root = codes "/var/spanel";
  logs_num = 1;
  opens = λ f. true;
  unlinks = λ f. true;
  listing = codes "/b.log" ∷ codes "/a.log" ∷ [];
}

abbrev noon : Moment
noon = record { year = 2016; month = 5; day = 3; hour = 12; minute = 0; second = 0; millisec = 7 }

abbrev a_logger : Logger
a_logger = record { logfile = some (codes "/b.log"); dom = 3; files = []; unlinked = [] }

delete_old_logs-unlinked_example :
    (delete_old_logs a_disk noon a_logger).unlinked
    ≡ [] ++ removable (λ f. true) (drop 1 (codes "/b.log" ∷ codes "/a.log" ∷ []))
delete_old_logs-unlinked_example = delete_old_logs-unlinked a_disk noon a_logger

write-AddsLine_example :
    AddsLine
      (at (codes "/b.log") a_logger.files)
      (at (codes "/b.log") (write a_disk noon (codes "a\nb") 4 a_logger).files)
    × ((write a_disk noon (codes "a\nb") 4 a_logger).unlinked ≡ [])
write-AddsLine_example =
    write-AddsLine a_disk noon (codes "a\nb") 4 a_logger (codes "/b.log") refl refl

abbrev an_engine : Engine
an_engine = record {
  sqlite = λ asked text.
      statement (codes "user_id" ∷ codes "userLogin" ∷ [])
        ((some (codes "1") ∷ some (codes "admin") ∷ []) ∷ []) 0
      ∷ [];
  allocator = record { realloc = λ n. true; malloc = λ n. true };
}

check_all-asks_example : check_all an_engine [] ≡ (
  true,
  (([] ++ map c_str statements) ++ c_str select_users ∷ [])
      ++ map (λ r. c_str (user_query r)) ((codes "1" ∷ codes "admin" ∷ []) ∷ []),
)
unfolding values
check_all-asks_example =
    check_all-asks an_engine [] (codes "user_id" ∷ codes "userLogin" ∷ [])
      ((some (codes "1") ∷ some (codes "admin") ∷ []) ∷ []) (λ n. refl) (λ n. refl) (refl, tt) refl

abbrev services : Services
services = record {
  addslashes = λ s. s;
  explode = λ s c. s ∷ [];
  base64_decode = λ s. s;
  atoi = λ s. 0;
  sqlite = λ before text. [];
  insert_id = λ before. 7;
  transform = λ template text. some text;
  long_text = λ n. codes "7";
  realloc = λ n. true;
  allocator = record { realloc = λ n. true; malloc = λ n. true };
  now = 100;
  ids = [];
}

abbrev programs : Programs
programs = record {
  starts = λ text. true;
  reads = λ text. true;
  words = λ line. line ∷ [];
  atol = λ text. 0;
  ltos = λ n. codes "0";
}

abbrev an_answer : Response
an_answer = record {
  buf = [];
  size = 64;
  status = 200;
  sent = 0;
  needrefill = false;
  h_sent = false;
  h_out = [];
}

abbrev a_conn : Conn
a_conn = record { hndstate = 0; resp = an_answer; queries = []; sessions = empty; sess = none }

abbrev vz_started : Shell
vz_started = record { conn = set_state 1 a_conn; rp = some run_program }

abbrev vz_output : List Bytes
vz_output = codes "1 a" ∷ codes " b" ∷ []

vz_output-Fits : Fits (λ n. true) vz_output run_program
unfolding grow
vz_output-Fits =
    let first : (0 < 3) × (3 ≤ 1025) = (omega arith, omega arith) in
    let second : (0 < 2) × (2 ≤ 1022) = (omega arith, omega arith) in
    let last : 0 < 1020 = omega arith in (first.0, (first.1, (second.0, (second.1, last))))

container_list-runs_example :
    (container_list services programs (record { conn = a_conn; rp = none }) ≡ waits vz_started)
    × ((container_list services programs
            (record vz_started { rp = some (run_all (λ n. true) (pieces vz_output) run_program) })
          ≡ short_line)
        ↔ HasShort (words_of programs (codes "1 a b" ∷ [])))
container_list-runs_example =
    container_list-runs services programs (λ n. true) a_conn vz_output refl refl vz_output-Fits

-- A machine on which all goes well, and both numbers are set
abbrev a_boot : Boot
a_boot = record {
  file = some [];
  locks = true;
  opens_db = true;
  sock = some 3;
  memory = true;
  known = true;
  ssl_sock = some 4;
  ssl_memory = true;
  binds = true ∷ [];
  listens = true;
  ssl_binds = true ∷ [];
  ssl_listens = true;
  atoi = λ text. 400;
}

a_boot-serves : main a_boot ≡ serves (some 3) (some 4)
unfolding main
a_boot-serves = refl

main-serves_example :
    (lines : List Bytes) × ((a_boot.file ≡ some lines)
      × ((a_boot.locks ≡ true)
          × ((a_boot.opens_db ≡ true)
              × ((ci a_boot (codes "PortNum") (load_lines defaults lines) ≢ 0)
                  × (ci a_boot (codes "PostNumSSL") (load_lines defaults lines) ≢ 0)))))
main-serves_example = main-serves a_boot (some 3) (some 4) a_boot-serves

-- With the default settings and nothing else `PostNumSSL` is 0, and NULL is read.
abbrev digits : Bytes → ℕ
digits [] = 0
digits (c ∷ cs) = c

defaults_crash : main (record a_boot { atoi = digits }) ≡ crashes
unfolding main cs at lookup insert beq bytes_lt set_all default_rows
defaults_crash = refl
