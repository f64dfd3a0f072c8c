-- ===== src/Connection/Read.antt =====
-- src/core/connection.cpp, `conn_read`: one event of a connection whose request is being read, without SSL.
pub mod Kept
pub mod Appended
pub mod Ends
pub mod Parts
pub mod Pieces
pub mod Room
use evcp.Base.{
  ℕ, ◌+◌, ◌-◌, [], ◌∷◌, ◌++◌, Option, some, none, Bool, Bytes, ltb, ◌==◌, if◌then◌else◌, length,
  take,
}
use evcp.Base.Maps.{StrMap}
use evcp.Request.Http
use evcp.Request.Line.{parse_request_line}
use evcp.Request.{Request, fresh, Code, ok, again, header_done, error}
use evcp.Connection.Body.{post_vars}
use evcp.Connection.Cookies.{CookieMap, decode_cookies}
use evcp.Connection.Headers.{Headers, waits, all_read, running, read_headers, smallbuf}
use evcp.Connection.Line.{Strings, copy_str, line_strings, refuses_uri}
use evcp.Connection.Values.{read_http_values}

-- `REQBUFPART` and `MYBUFSZ`
abbrev pub reqbufpart : ℕ
reqbufpart = 1024

abbrev pub mybufsz : ℕ
mybufsz = 10240

-- What is kept of the request from one event to the next: the buffer, of which the first bytes are
-- filled, what the parsers keep, the strings and the maps that stand in `sp_request_s`, and the status.
pub record Reading : Type 0 where
  pub size : ℕ
  pub buf : Bytes
  pub request : Request
  pub line : Option Strings
  pub get_vars : Option StrMap
  pub list : StrMap
  pub post : Option StrMap
  pub cookies : CookieMap
  pub status : ℕ

-- `conn_init`
abbrev pub opened : Reading
opened = record {
  size = mybufsz;
  buf = [];
  request = fresh;
  line = none;
  get_vars = none;
  list = [];
  post = none;
  cookies = [];
  status = 200;
}

-- What `read` gives: -1, 0, or bytes.
pub data Got : Type 0 where
  failed closed : Got
  bytes : Bytes → Got

-- How the event ends: `event_add`, `sp_process_request` or `sp_finish_request` as the next event,
-- `conn_close`; or a byte is written behind the end of a buffer, or the loop over the header lines takes all
-- the rounds that it is given; or the buffer has moved, and the pointers into it are left behind.
pub data ReadEnd : Type 0 where
  again_later processes finishes : Reading → ReadEnd
  closes overruns spins dangles : ReadEnd

-- What `realloc` does with a block: nothing, or it makes it larger where it is, or somewhere else.
pub data Regrown : Type 0 where
  no_memory in_place moved : Regrown

-- `if(r->len > r->size - REQBUFPART/2)`. When the buffer moves, `r->pos` alone moves with it: the pointers
-- that the parsers have set stay in the block that is freed, and there is no reading to go on with.
unfoldable pub grow : (ℕ → Regrown) → Reading → Option Reading
grow regrow c =
    let size = c.size + reqbufpart + 1 in
    if ltb (c.size - 512) (length c.buf)
    then elim (regrow size) [
      | no_memory ↦ some c
      | in_place ↦ some (record c { size = size })
      | moved ↦ none
    ]
    else some c

-- `read( fd, r->buf + r->len, dlen )`, of bytes that have come
unfoldable pub read_into : (ℕ → Regrown) → Bytes → Reading → Option Reading
unfolding grow
read_into regrow got c = elim (grow regrow c) [
  | none ↦ none
  | some d ↦ some (record d { buf = d.buf ++ take (d.size - length d.buf) got })
]

-- `procnrespond`
unfoldable pub respond_next : Reading → ReadEnd
respond_next c = if ltb c.status 299 then processes c else finishes c

-- What follows the last header line.
unfoldable pub head_read : Reading → ReadEnd
unfolding post_vars decode_cookies respond_next
head_read c =
    let with_post =
      if c.request.method == Http.post
      then record c { post = some (post_vars c.buf c.request) }
      else c in
    respond_next (record with_post { cookies = decode_cookies c.list })

-- The loop over the header lines, with so many rounds
unfoldable pub read_head : ℕ → Reading → ReadEnd
unfolding read_headers head_read
read_head rounds c = elim (read_headers rounds c.buf c.request c.list) [
  | waits r m ↦ again_later (record c { request = r; list = m })
  | all_read r m ↦ head_read (record c { request = r; list = m })
  | running ↦ spins
]

abbrev pub bad_request : Reading → Reading
bad_request c = record c { status = 400 }

-- The strings of the request line, and the variables behind its "?"
abbrev pub with_line : Strings → Reading → Reading
with_line line c =
    let get : Option StrMap = elim line.args [
      | none ↦ none
      | some text ↦ some (read_http_values [] text)
    ] in
    record c { line = some line; list = []; get_vars = get }

-- What follows, with the strings and the answer of the scan for dots
unfoldable pub line_cut : ℕ → Reading → Strings → Bool → ReadEnd
unfolding copy_str respond_next read_head read_http_values
line_cut rounds c line refused = elim (copy_str smallbuf line.request_line) [
  | none ↦ overruns
  | some copy ↦
      if refused
      then respond_next (bad_request (record c { list = [] }))
      else read_head rounds (with_line line c)
]

unfoldable pub line_read : ℕ → Reading → ReadEnd
unfolding line_strings refuses_uri line_cut
line_read rounds c = line_cut rounds c (line_strings c.buf c.request) (refuses_uri c.buf c.request)

-- `if(!r->request_end)`
unfoldable pub parse_more : ℕ → Reading → ReadEnd
unfolding parse_request_line line_read respond_next read_head
parse_more rounds c = elim c.request.request_end [
  | some end ↦ read_head rounds c
  | none ↦
      let (code, r) = parse_request_line c.buf c.request in
      elim code [
        | again ↦ again_later (record c { request = r })
        | ok ↦ line_read rounds (record c { request = r })
        | header_done ↦ respond_next (bad_request (record c { request = r }))
        | error e ↦ respond_next (bad_request (record c { request = r }))
      ]
]

-- Behind `read`: 0 bytes are an end, also where there is no room for more; the NUL behind the bytes has to
-- be within the buffer.
unfoldable pub received : ℕ → Reading → Reading → ReadEnd
unfolding parse_more
received rounds c d =
    if length d.buf == length c.buf
    then closes
    else if ltb (length d.buf) d.size
    then parse_more rounds d
    else overruns

-- `conn_read`
unfoldable pub conn_read : (ℕ → Regrown) → ℕ → Got → Reading → ReadEnd
unfolding read_into received
conn_read regrow rounds failed c = closes
conn_read regrow rounds closed c = closes
conn_read regrow rounds (bytes got) c = elim (read_into regrow got c) [
  | none ↦ dangles
  | some d ↦ received rounds c d
]
