-- ===== src/Connection/Line.antt =====
-- src/core/connection.cpp, `conn_read`: what is made of a request line that has been parsed.
pub mod Lengths
pub mod Dots
use evcp.Base.{
  ℕ, ◌+◌, ◌-◌, [], ◌∷◌, ◌++◌, ◌&&◌, ◌||◌, not, Bool, true, false, Option, some, none, Bytes, ltb,
  ◌==◌, if◌then◌else◌, length,
}
use evcp.Request.{Request}
use evcp.Connection.Headers.{slice, smallbuf}

-- `ngx2spstrcpy(s, …, len)` into a buffer of `cap` bytes: `len` bytes and a NUL. `none` is a write
-- behind the buffer's end.
unfoldable pub copy_str : ℕ → Bytes → Option Bytes
copy_str cap bytes = if ltb (length bytes) cap then some (bytes ++ 0 ∷ []) else none

-- The `sp_str_t` fields; a field that stays unset is `none`.
pub record Strings : Type 0 where
  pub request_line : Bytes
  pub uri : Bytes
  pub unparsed_uri : Bytes
  pub method_name : Bytes
  pub http_protocol : Option Bytes
  pub exten : Option Bytes
  pub args : Option Bytes

-- Where the path ends: in front of the "?", if there is one.
abbrev pub path_end : Request → ℕ
path_end r = elim r.args_start [ none ↦ r.uri_end | some a ↦ a - 1 ]

-- A pointer that is known to be set.
abbrev pub or_null : Option ℕ → ℕ
or_null none = 0
or_null (some p) = p

abbrev args_of : Bytes → Request → Option Bytes
args_of buf r = elim r.args_start [
  | none ↦ none
  | some a ↦ if ltb a r.uri_end then some (slice buf a r.uri_end) else none
]

unfoldable pub line_strings : Bytes → Request → Strings
line_strings buf r = record {
  request_line = slice buf r.request_start (or_null r.request_end);
  uri = slice buf r.uri_start (path_end r);
  unparsed_uri = slice buf r.uri_start r.uri_end;
  method_name = slice buf r.request_start (r.method_end + 1);
  http_protocol = elim r.http_protocol [
    | none ↦ none
    | some h ↦ some (slice buf h (or_null r.request_end))
  ];
  exten = elim r.uri_ext [ none ↦ none | some x ↦ some (slice buf x (path_end r)) ];
  args = args_of buf r;
}

-- One character of the scan for dots: the count goes up at "/" and ".", stays at "\", and falls to 0
-- at any other.
unfoldable pub warn_step : ℕ → ℕ → ℕ
warn_step warn c = if c == b'/' || c == b'.' then warn + 1 else if c == b'\\' then warn else 0

-- `for(cc = r->uri_start; cc < r->uri_end; cc++)`; true where the request is refused
unfoldable pub dots_loop : ℕ → Bytes → Bool
dots_loop warn [] = false
dots_loop warn (c ∷ cs) =
    let warn' = warn_step warn c in
    let rest = dots_loop warn' cs in if ltb 2 warn' then true else rest

-- `if(r->complex_uri)`
unfoldable pub refuses_uri : Bytes → Request → Bool
unfolding dots_loop
refuses_uri buf r = not (r.complex_uri == 0) && dots_loop 0 (slice buf r.uri_start r.uri_end)
