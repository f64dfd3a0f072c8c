-- ===== src/Request/Version.antt =====
-- src/core/request.cpp, `sp_parse_request_line`: the states from the end of the URI to the end of
-- the line. `http_major` and `http_minor` are bit fields of 16 bits.
use evcp.Base.{ℕ, ◌+◌, ◌-◌, ◌*◌, ◌%◌, some, ◌==◌, within, if◌then◌else◌}
use evcp.Request.Chars.{lf, cr, is_digit}
use evcp.Request.{
  invalid_request, LineState, http_09, http_h, major_digit, first_minor_digit, minor_digit,
  spaces_after_digit, almost_done, Request, Outcome, go, done, fail,
}

abbrev pub u16_mod : ℕ
u16_mod = 65536

-- `case sw_http_09`
unfoldable pub step_http_09 : Request → ℕ → ℕ → Outcome LineState
step_http_09 r p ch =
    if ch == b' '
    then go http_09 r
    else if ch == cr
    then go almost_done (record r { http_minor = 9 })
    else if ch == lf
    then done (record r { http_minor = 9 })
    else if ch == b'H'
    then go http_h (record r { http_protocol = some p })
    else fail invalid_request r

-- `case sw_http_H` to `case sw_http_HTTP`: one expected character each
unfoldable pub step_expect : ℕ → LineState → Request → ℕ → Outcome LineState
step_expect want next r ch = if ch == want then go next r else fail invalid_request r

-- `case sw_first_major_digit`
unfoldable pub step_first_major : Request → ℕ → Outcome LineState
step_first_major r ch =
    if within b'1' b'9' ch
    then go major_digit (record r { http_major = ch - b'0' })
    else fail invalid_request r

-- `case sw_major_digit`
unfoldable pub step_major : Request → ℕ → Outcome LineState
step_major r ch =
    if ch == b'.'
    then go first_minor_digit r
    else if is_digit ch
    then go major_digit (record r { http_major = (r.http_major * 10 + ch - b'0') % u16_mod })
    else fail invalid_request r

-- `case sw_first_minor_digit`
unfoldable pub step_first_minor : Request → ℕ → Outcome LineState
step_first_minor r ch =
    if is_digit ch
    then go minor_digit (record r { http_minor = ch - b'0' })
    else fail invalid_request r

-- `case sw_minor_digit`
unfoldable pub step_minor : Request → ℕ → Outcome LineState
step_minor r ch =
    if ch == cr
    then go almost_done r
    else if ch == lf
    then done r
    else if ch == b' '
    then go spaces_after_digit r
    else if is_digit ch
    then go minor_digit (record r { http_minor = (r.http_minor * 10 + ch - b'0') % u16_mod })
    else fail invalid_request r

-- `case sw_spaces_after_digit`
unfoldable pub step_spaces_after_digit : Request → ℕ → Outcome LineState
step_spaces_after_digit r ch =
    if ch == b' '
    then go spaces_after_digit r
    else if ch == cr
    then go almost_done r
    else if ch == lf
    then done r
    else fail invalid_request r

-- `case sw_almost_done`
unfoldable pub step_almost_done : Request → ℕ → ℕ → Outcome LineState
step_almost_done r p ch =
    let r' = record r { request_end = some (p - 1) } in
    if ch == lf then done r' else fail invalid_request r'
