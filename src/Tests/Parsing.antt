-- ===== src/Tests/Parsing.antt =====
-- Request lines and headers, run.
use evcp.Base.{◌≡◌, refl, some, codes, true, arith}
use evcp.Request.Http
use evcp.Request.Chars.{is_usual, is_letter}
use evcp.Request.Method.{method_of}
use evcp.Request.Line.{parse_request_line, step_line, line_done}
use evcp.Request.Line
use evcp.Request.Line.Resume.{Resumes, parse_request_line-Resumes}
use evcp.Request.Line.Bounds.{parse_request_line-Checked}
use evcp.Request.Line.RoundTrip.{Verb, line_text, parsed, parse-line_text}
use evcp.Request.Header
use evcp.Request.Header.{parse_header_line, step_header}
use evcp.Request.Header.Bounds.{parse_header_line-Checked}
use evcp.Request.Header.Resume.{parse_header_line-Resumes}
use evcp.Request.{ok, Code, Request, fresh}

line_runs :
    let (c, r) = parse_request_line (codes "GET /a.html?x=1 HTTP/1.1\r\n") fresh in
    (c ≡ ok)
    × (r.method ≡ Http.get)
    × (r.uri_ext ≡ some 7)
    × (r.args_start ≡ some 12)
    × (r.uri_end ≡ 15)
    × (r.http_version ≡ 1001)
    × (r.request_end ≡ some 24)
    × (r.pos ≡ 26)
unfolding parse_request_line step_line line_done method_of is_usual is_letter
line_runs = (refl, refl, refl, refl, refl, refl, refl, refl)

-- A request line that comes in two pieces.
parse_request_line-Resumes_example :
    Resumes 7
      (parse_request_line (codes "GET /a.html HTTP/1.0\r\n"))
      (parse_request_line (codes "GET /a.") fresh)
      (parse_request_line (codes "GET /a.html HTTP/1.0\r\n") fresh)
parse_request_line-Resumes_example =
    parse_request_line-Resumes (codes "GET /a.") (codes "html HTTP/1.0\r\n") fresh (omega arith)

parse-line_text_example :
    parse_request_line (line_text Verb.propfind (codes "docs") 1 1 (codes "Host: a\r\n")) fresh
    ≡ (ok, parsed Verb.propfind 8 4 1 1)
unfolding is_usual
parse-line_text_example =
    parse-line_text Verb.propfind (codes "docs") 1 1 (codes "Host: a\r\n")
      (refl, (refl, (refl, (refl, tt)))) (omega arith, omega arith) (omega arith)

parse_request_line-Checked_example :
    Line.Bounds.Checked 24 (parse_request_line (codes "GET /a?x HTTP/1.0\r\nHost:") fresh)
parse_request_line-Checked_example =
    parse_request_line-Checked (codes "GET /a?x HTTP/1.0\r\nHost:") fresh Line.Bounds.fresh-Inv
      (omega arith)

parse_header_line-Checked_example :
    Header.Bounds.Checked 10 (parse_header_line (codes "Host: a\r\n\r") true fresh)
parse_header_line-Checked_example =
    parse_header_line-Checked (codes "Host: a\r\n\r") true fresh Header.Bounds.fresh-Inv
      (omega arith)

parse_header_line-Resumes_example :
    Header.Resume.Resumes 6
      (parse_header_line (codes "Host: a\r\n\r\n") true)
      (parse_header_line (codes "Host: ") true fresh)
      (parse_header_line (codes "Host: a\r\n\r\n") true fresh)
parse_header_line-Resumes_example =
    parse_header_line-Resumes (codes "Host: ") (codes "a\r\n\r\n") true fresh (omega arith)

-- A carriage return without its line feed.
abbrev refused_line : Request → Code × Request
refused_line r = parse_header_line (codes "\rA\r\n") true r
