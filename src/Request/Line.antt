-- ===== src/Request/Line.antt =====
-- src/core/request.cpp, `sp_parse_request_line`: the loop over the characters of a buffer.
pub mod Resume
pub mod Bounds
pub mod RoundTrip
use evcp.Base.{
  ℕ, ◌+◌, ◌*◌, [], ◌∷◌, Option, some, none, not, ◌&&◌, ◌==◌, Bytes, drop, if◌then◌else◌,
}
use evcp.Request.Http
use evcp.Request.Target.{
  step_start, step_method, step_spaces_before_uri, step_schema, step_schema_slash,
  step_schema_slash_slash, step_host, step_port, step_after_slash, step_check_uri, step_uri,
}
use evcp.Request.Version.{
  step_http_09, step_expect, step_first_major, step_major, step_first_minor, step_minor,
  step_spaces_after_digit, step_almost_done,
}
use evcp.Request.{
  Code, ok, again, error, invalid_09_method, LineState, start, method, spaces_before_uri, schema,
  schema_slash, schema_slash_slash, host, port, after_slash_in_uri, check_uri, uri, http_09, http_h,
  http_ht, http_htt, http_http, first_major_digit, major_digit, first_minor_digit, minor_digit,
  spaces_after_digit, almost_done, Request, Outcome, go, done, finished, fail,
}

-- `switch (state)`
unfoldable pub step_line : Bytes → LineState → Request → ℕ → ℕ → Outcome LineState
unfolding step_start step_method step_spaces_before_uri step_schema step_schema_slash
    step_schema_slash_slash step_host step_port step_after_slash step_check_uri step_uri
    step_http_09 step_expect step_first_major step_major step_first_minor step_minor
    step_spaces_after_digit step_almost_done
step_line buf start r p ch = step_start r p ch
step_line buf method r p ch = step_method buf r p ch
step_line buf spaces_before_uri r p ch = step_spaces_before_uri r p ch
step_line buf schema r p ch = step_schema r p ch
step_line buf schema_slash r p ch = step_schema_slash r p ch
step_line buf schema_slash_slash r p ch = step_schema_slash_slash r p ch
step_line buf host r p ch = step_host r p ch
step_line buf port r p ch = step_port r p ch
step_line buf after_slash_in_uri r p ch = step_after_slash r p ch
step_line buf check_uri r p ch = step_check_uri r p ch
step_line buf uri r p ch = step_uri r p ch
step_line buf http_09 r p ch = step_http_09 r p ch
step_line buf http_h r p ch = step_expect b'T' http_ht r ch
step_line buf http_ht r p ch = step_expect b'T' http_htt r ch
step_line buf http_htt r p ch = step_expect b'P' http_http r ch
step_line buf http_http r p ch = step_expect b'/' first_major_digit r ch
step_line buf first_major_digit r p ch = step_first_major r ch
step_line buf major_digit r p ch = step_major r ch
step_line buf first_minor_digit r p ch = step_first_minor r ch
step_line buf minor_digit r p ch = step_minor r ch
step_line buf spaces_after_digit r p ch = step_spaces_after_digit r ch
step_line buf almost_done r p ch = step_almost_done r p ch

-- `if (r->request_end == NULL)`
abbrev or_here : Option ℕ → ℕ → ℕ
or_here none p = p
or_here (some e) p = e

-- The statements at `done:`, reached at the character with the offset `p`.
unfoldable pub line_done : Request → ℕ → Code × Request
line_done r p =
    let version = r.http_major * 1000 + r.http_minor in
    let r' = record r {
      pos = p + 1;
      request_end = some (or_here r.request_end p);
      http_version = version;
      line_state = start;
    } in
    if version == 9 && not (r.method == Http.get) then (error invalid_09_method, r') else (ok, r')

-- What follows one character: leave the loop, or go on at `p + 1`.
abbrev pub after_step :
    Outcome LineState → ℕ → (LineState → Request → Code × Request) → Code × Request
after_step (go s r) p rest = rest s r
after_step (done r) p rest = line_done r p
after_step (finished r) p rest = line_done r p
after_step (fail e r) p rest = (error e, r)

-- `for (p = r->pos; p < r->last; p++)`, over the characters from `p` on.
unfoldable pub line_loop : Bytes → LineState → Request → ℕ → Bytes → Code × Request
line_loop buf s r p [] = (again, record r { pos = p; line_state = s })
line_loop buf s r p (ch ∷ rest) =
    after_step (step_line buf s r p ch) p (λ s' r'. line_loop buf s' r' (p + 1) rest)

-- `r->buf` holds `buf`, and `r->last` is its end.
unfoldable pub parse_request_line : Bytes → Request → Code × Request
unfolding line_loop
parse_request_line buf r = line_loop buf r.line_state r r.pos (drop r.pos buf)
