-- ===== src/Connection/Process.antt =====
-- src/core/connection.cpp, `sp_process_request`: what becomes of a request that has been read.
pub mod Etag
use evcp.Base.{
  ℕ, zero, suc, ◌+◌, ◌-◌, ◌*◌, ◌/◌, ◌%◌, ◌^◌, [], ◌∷◌, ◌++◌, List, Option, none, some, Bool, true,
  false, not, Bytes, ltb, ◌==◌, if◌then◌else◌, length, codes, beq,
}
use evcp.Base.Maps.{StrMap, insert, at}
use evcp.Connection.Headers.{c_str}
use evcp.Connection.Mime.{strncmp, getmime}

-- `%d` of a number that is not negative
unfoldable pub decimal : ℕ → ℕ → Bytes
decimal zero n = []
decimal (suc width) n =
    let front = decimal width (n / 10) in
    if ltb n 10 then (b'0' + n) ∷ [] else front ++ (b'0' + n % 10) ∷ []

-- `%d` prints the low 32 bits, with a sign.
unfoldable pub int_text : ℕ → Bytes
unfolding decimal
int_text n =
    let m = n % 2 ^ 32 in if ltb m (2 ^ 31) then decimal 10 m else b'-' ∷ decimal 10 (2 ^ 32 - m)

-- `x+=*s` on a signed `char`, modulo the 32 bits that are printed
unfoldable pub char_sum : Bytes → ℕ
char_sum [] = 0
char_sum (c ∷ s) =
    let rest = char_sum s in (if ltb c 128 then c + rest else c + (2 ^ 32 - 256) + rest) % 2 ^ 32

-- `struct stat`, as far as it is read
pub record Stat : Type 0 where
  pub is_dir : Bool
  pub st_size : ℕ
  pub st_mode : ℕ
  pub st_mtime : ℕ
  pub st_ino : ℕ

-- `get_etag`, which has room for all five numbers
unfoldable pub get_etag : Bytes → Stat → Bytes
unfolding int_text char_sum
get_etag path st =
    b'"'
    ∷ (int_text (char_sum path)
        ++ int_text st.st_size
        ++ int_text st.st_mode
        ++ int_text st.st_mtime
        ++ int_text st.st_ino
        ++ b'"' ∷ [])

-- The handler that comes next, and `returned` where the function leaves that to `mgrProcess`.
pub data Handler : Type 0 where
  sp_finish_request sp_responce_senfile returned : Handler

-- What `mgrProcess` returns: 1, -1 or anything else.
pub data MgrEnd : Type 0 where
  handled auth_failed other : MgrEnd

-- The response, as far as this function sets it. `fsend` is the descriptor, if `open` was called.
pub record Answer : Type 0 where
  pub handler : Handler
  pub status : ℕ
  pub h_out : StrMap
  pub fsend : Option ℕ
  pub fsize : ℕ
  pub fread : ℕ

-- The request's strings, and the headers it came with
pub record Asked : Type 0 where
  pub uri : Bytes
  pub exten : Option Bytes
  pub headers : StrMap

-- What the function calls: the system's `stat` and `open` (`none` is -1), `sp_get_filetime`, which
-- turns on the system's time zone, the time that it is now, `mgrProcess`, which changes the response.
pub record System : Type 0 where
  pub stat : Bytes → Option Stat
  pub open_file : Bytes → Option ℕ
  pub filetime : ℕ → Bytes
  pub now : ℕ
  pub mgr : Asked → Answer → MgrEnd × Answer

abbrev pub docroot : Bytes
docroot = codes "/home/dev/cpp/docroot"

-- `fsendpath`
abbrev pub send_path : Bytes → Bytes
send_path uri = docroot ++ c_str uri

-- The headers that every answer has
abbrev pub common_headers : System → StrMap → StrMap
common_headers sys h_out = insert (codes "Date") (sys.filetime sys.now) (
    insert (codes "Connection") (codes "close")
      (insert (codes "Server") (codes "SKILLPANEL 0.2-0") h_out))

-- `if(r->uri.len>4) if(!sp_strncmp("/mgr/",…,5))`
unfoldable pub is_command : Bytes → Bool
unfolding strncmp
is_command uri = if ltb 4 (length uri) then not (strncmp 5 (codes "/mgr/") uri) else false

-- A command of the console
unfoldable pub run_command : System → Asked → Answer → Answer
run_command sys q a =
    let (end, a') = sys.mgr q a in
    elim end [
      | handled ↦ record a' { handler = returned }
      | auth_failed ↦ record a' { handler = sp_finish_request }
      | other ↦ record a' { handler = sp_finish_request; status = 501 }
    ]

-- `if(sendfull)`, for what `open` returned
unfoldable pub opened : Option ℕ → Stat → Answer → Answer
opened none st a = record a {
  fsize = st.st_size;
  fread = 0;
  fsend = none;
  handler = sp_finish_request;
  status = 405;
}
opened (some zero) st a = record a {
  fsize = st.st_size;
  fread = 0;
  fsend = some zero;
  handler = sp_finish_request;
  status = 405;
}
opened (some (suc fd)) st a = record a {
  fsize = st.st_size;
  fread = 0;
  fsend = some (suc fd);
  handler = if st.st_size == 0 then sp_finish_request else sp_responce_senfile;
}

-- The headers that describe the file
abbrev pub file_headers : System → Asked → Bytes → Stat → StrMap → StrMap
file_headers sys q path st h_out = insert (codes "Last-Modified") (sys.filetime st.st_mode) (
    insert (codes "ETag") (get_etag path st) (
      insert (codes "Content-Length") (int_text st.st_size)
        (insert (codes "Content-Type") (getmime q.exten) h_out)))

-- `if(file_exists)`
unfoldable pub send_static : System → Asked → Bytes → Stat → Answer → Answer
unfolding get_etag int_text opened beq insert at getmime
send_static sys q path st a =
    let h_out = file_headers sys q path st a.h_out in
    if beq (at (codes "If-None-Match") q.headers) (at (codes "ETag") h_out)
    then record a { h_out = h_out; handler = sp_finish_request; status = 304 }
    else opened (sys.open_file path) st (record a { h_out = h_out })

-- `sp_process_request`
unfoldable pub process_request : System → Asked → StrMap → Answer
unfolding is_command run_command send_static insert
process_request sys q h_out =
    let a : Answer = record {
      handler = sp_finish_request;
      status = 200;
      h_out = common_headers sys h_out;
      fsend = none;
      fsize = 0;
      fread = 0;
    } in
    if is_command q.uri then run_command sys q a else elim (sys.stat (send_path q.uri)) [
      | none ↦ record a { status = 404 }
      | some st ↦
          if st.is_dir then record a { status = 405 } else send_static sys q (send_path q.uri) st a
    ]
