-- ===== src/Request/Target.antt =====
-- src/core/request.cpp, `sp_parse_request_line`: the states from the method to the end of the URI.
-- Each function is one `case`, at the character `ch` with the offset `p`.
use evcp.Base.{ℕ, ◌+◌, ◌-◌, ◌||◌, some, none, ◌==◌, Bytes, if◌then◌else◌}
use evcp.Request.Chars.{lf, cr, is_usual, is_letter, is_digit, is_method_char}
use evcp.Request.Method.{method_of}
use evcp.Request.{
  invalid_method, invalid_request, LineState, method, spaces_before_uri, schema, schema_slash,
  schema_slash_slash, host, port, after_slash_in_uri, check_uri, uri, http_09, almost_done, Request,
  Outcome, go, done, fail,
}

-- `case sw_start`
unfoldable pub step_start : Request → ℕ → ℕ → Outcome LineState
step_start r p ch =
    let r' = record r { request_start = p } in
    if ch == cr || ch == lf
    then go LineState.start r'
    else if is_method_char ch
    then go method r'
    else fail invalid_method r'

-- `case sw_method`
unfoldable pub step_method : Bytes → Request → ℕ → ℕ → Outcome LineState
step_method buf r p ch =
    if ch == b' '
    then go spaces_before_uri (record r {
      method_end = p - 1;
      method = method_of buf r.request_start (p - r.request_start) r.method;
    })
    else if is_method_char ch
    then go method r
    else fail invalid_method r

-- `case sw_spaces_before_uri`
unfoldable pub step_spaces_before_uri : Request → ℕ → ℕ → Outcome LineState
step_spaces_before_uri r p ch =
    if ch == b'/'
    then go after_slash_in_uri (record r { uri_start = p })
    else if is_letter ch
    then go schema (record r { schema_start = p })
    else if ch == b' '
    then go spaces_before_uri r
    else fail invalid_request r

-- `case sw_schema`
unfoldable pub step_schema : Request → ℕ → ℕ → Outcome LineState
step_schema r p ch =
    if is_letter ch
    then go schema r
    else if ch == b':'
    then go schema_slash (record r { schema_end = p })
    else fail invalid_request r

-- `case sw_schema_slash`
unfoldable pub step_schema_slash : Request → ℕ → ℕ → Outcome LineState
step_schema_slash r p ch = if ch == b'/' then go schema_slash_slash r else fail invalid_request r

-- `case sw_schema_slash_slash`
unfoldable pub step_schema_slash_slash : Request → ℕ → ℕ → Outcome LineState
step_schema_slash_slash r p ch =
    if ch == b'/' then go host (record r { host_start = p + 1 }) else fail invalid_request r

-- The single "/" of the scheme stands for a URI that is left out.
abbrev scheme_slash : Request → Request
scheme_slash r = record r { uri_start = r.schema_end + 1; uri_end = r.schema_end + 2 }

-- `case sw_host`
unfoldable pub step_host : Request → ℕ → ℕ → Outcome LineState
step_host r p ch =
    let r' = record r { host_end = p } in
    if is_letter ch
    then go host r
    else if is_digit ch || ch == b'.' || ch == b'-'
    then go host r
    else if ch == b':'
    then go port r'
    else if ch == b'/'
    then go after_slash_in_uri (record r' { uri_start = p })
    else if ch == b' '
    then go http_09 (scheme_slash r')
    else fail invalid_request r'

-- `case sw_port`
unfoldable pub step_port : Request → ℕ → ℕ → Outcome LineState
step_port r p ch =
    let r' = record r { port_end = p } in
    if is_digit ch
    then go port r
    else if ch == b'/'
    then go after_slash_in_uri (record r' { uri_start = p })
    else if ch == b' '
    then go http_09 (scheme_slash r')
    else fail invalid_request r

-- `case sw_after_slash_in_uri`
unfoldable pub step_after_slash : Request → ℕ → ℕ → Outcome LineState
step_after_slash r p ch =
    let ended = record r { uri_end = p } in
    let short = record ended { http_minor = 9 } in
    let odd = go uri (record r { complex_uri = 1 }) in
    if is_usual ch
    then go check_uri r
    else if ch == b' '
    then go http_09 ended
    else if ch == cr
    then go almost_done short
    else if ch == lf
    then done short
    else if ch == b'.'
    then odd
    else if ch == b'%'
    then go uri (record r { quoted_uri = 1 })
    else if ch == b'/'
    then odd
    else if ch == b'?'
    then go uri (record r { args_start = some (p + 1) })
    else if ch == b'#'
    then odd
    else if ch == b'+'
    then go after_slash_in_uri (record r { plus_in_uri = 1 })
    else if ch == 0
    then fail invalid_request r
    else go check_uri r

-- `case sw_check_uri`
unfoldable pub step_check_uri : Request → ℕ → ℕ → Outcome LineState
step_check_uri r p ch =
    let ended = record r { uri_end = p } in
    let short = record ended { http_minor = 9 } in
    if is_usual ch
    then go check_uri r
    else if ch == b'/'
    then go after_slash_in_uri (record r { uri_ext = none })
    else if ch == b'.'
    then go check_uri (record r { uri_ext = some (p + 1) })
    else if ch == b' '
    then go http_09 ended
    else if ch == cr
    then go almost_done short
    else if ch == lf
    then done short
    else if ch == b'%'
    then go uri (record r { quoted_uri = 1 })
    else if ch == b'?'
    then go uri (record r { args_start = some (p + 1) })
    else if ch == b'#'
    then go uri (record r { complex_uri = 1 })
    else if ch == b'+'
    then go check_uri (record r { plus_in_uri = 1 })
    else if ch == 0
    then fail invalid_request r
    else go check_uri r

-- `case sw_uri`
unfoldable pub step_uri : Request → ℕ → ℕ → Outcome LineState
step_uri r p ch =
    let ended = record r { uri_end = p } in
    let short = record ended { http_minor = 9 } in
    if is_usual ch
    then go uri r
    else if ch == b' '
    then go http_09 ended
    else if ch == cr
    then go almost_done short
    else if ch == lf
    then done short
    else if ch == b'#'
    then go uri (record r { complex_uri = 1 })
    else if ch == 0
    then fail invalid_request r
    else go uri r
