-- ===== src/Tests/Reading.antt =====
-- What is made of a request, at concrete inputs.
use evcp.Base.{
  List, ℕ, ◌≡◌, refl, none, codes, Bytes, ◌<◌, true, arith, [], ◌∷◌, ◌↔◌, beq, length-replicate,
  replicate, ◌++◌, zero, suc, Bool, false, ◌≢◌, sym, ap, ◌∙◌,
}
use evcp.Base.Maps.{StrMap, lookup}
use evcp.Request.Method.{method_of}
use evcp.Request.Chars.{is_usual, is_letter, lowcase}
use evcp.Request.Line.{parse_request_line, step_line, line_done}
use evcp.Request.Line.Bounds.{LineBounds}
use evcp.Request.Line.RoundTrip.{Verb, line_text, IsPlain}
use evcp.Request.Header.{parse_header_line, step_header}
use evcp.Request.{Code, Request, fresh, ok, invalid_header}
use evcp.Connection.Headers.{
  Headers, Refused, EndsOrRefused, read_headers, read_headers-EndsOrRefused,
  read_headers_never_ends, smallbuf,
}
use evcp.Connection.Read.{Reading, ReadEnd, again_later, opened, spins, bytes, conn_read, Regrown}
use evcp.Connection.Read.Ends.{SameAnswer}
use evcp.Connection.Read.Pieces.{conn_reads, Ends, conn_read_in_pieces}
use evcp.Connection.Line.{line_strings, copy_str, dots_loop}
use evcp.Connection.Line.Lengths.{Cut, line_strings-Cut, long_line_overruns}
use evcp.Connection.Line.Dots.{HasMarks, dots_loop_iff}
use evcp.Connection.Values.{read_http_values}
use evcp.Connection.Values.RoundTrip.{query_text, assign_all, read_http_values-query_text}
use evcp.Connection.Cookies.{decode_cookies}
use evcp.Connection.Cookies.Last.{plain, decode_cookies-last}

abbrev two_headers : Bytes
two_headers = codes "Host: a\r\n\r\n"

read_headers-EndsOrRefused_example :
    EndsOrRefused two_headers fresh (read_headers 12 two_headers fresh [])
read_headers-EndsOrRefused_example =
    read_headers-EndsOrRefused 12 two_headers fresh [] (refl, (omega arith, refl), omega arith)
      (omega arith)

-- The first read ends within the name of a header.
abbrev first_part : Bytes
first_part = codes "GET /a?b=c HTTP/1.1\r\nHost: a\r\nAcc"

abbrev second_part : Bytes
second_part = codes "ept: b\r\n\r\n"

abbrev no_memory : ℕ → Regrown
no_memory n = Regrown.no_memory

abbrev reading_of : ReadEnd → Reading
reading_of (again_later c) = c
reading_of _ = opened

abbrev three_pieces : List Bytes
three_pieces = codes "GET /a?" ∷ codes "b=c HTTP/1.1\r\nHost: a\r\nAcc" ∷ []

abbrev after_first : Reading
after_first = reading_of (conn_reads no_memory 9 three_pieces opened)

pieces-wait : conn_reads no_memory 9 three_pieces opened ≡ again_later after_first
unfolding conn_read parse_request_line step_line parse_header_line step_header lowcase is_usual
    line_done method_of
pieces-wait = refl

abbrev is_spinning : ReadEnd → Bool
is_spinning spins = true
is_spinning _ = false

whole_answers :
    is_spinning (conn_read no_memory 9 (bytes (first_part ++ second_part)) opened) ≡ false
unfolding conn_read parse_request_line step_line parse_header_line step_header lowcase is_usual
    line_done method_of
whole_answers = refl

waits_end : (e : ReadEnd) → is_spinning e ≡ false → e ≢ spins
waits_end e k l = (let f = sym k ∙ ap is_spinning l in cc)

pieces-Ends : Ends no_memory 9 [] three_pieces
unfolding conn_read parse_request_line step_line parse_header_line step_header lowcase is_usual
    line_done method_of
pieces-Ends =
    let first : 0 < 7 = omega arith in
    let second : 0 < 26 = omega arith in
    (first, (waits_end _ refl, (second, (waits_end _ refl, tt))))

conn_read_in_pieces_example :
    SameAnswer
      (conn_read no_memory 9 (bytes second_part) after_first)
      (conn_read no_memory 9 (bytes (first_part ++ second_part)) opened)
conn_read_in_pieces_example =
    conn_read_in_pieces no_memory 9 three_pieces second_part after_first (omega arith) (omega arith)
      (omega arith) pieces-wait pieces-Ends (waits_end _ whole_answers)

-- A carriage return without its line feed.
abbrev refused_text : Bytes
refused_text = codes "A: b\rc\r\n\r\n"

abbrev refused_result : Code × Request
refused_result = parse_header_line refused_text true fresh

refused_text-Refused : Refused refused_text fresh
unfolding parse_header_line step_header lowcase
refused_text-Refused = Refused.here invalid_header refused_result.1 refl

read_headers_never_ends_example : read_headers 1000 refused_text fresh [] ≡ Headers.running
read_headers_never_ends_example =
    read_headers_never_ends 1000 refused_text fresh [] (refl, (omega arith, refl), omega arith)
      refused_text-Refused

abbrev line_result : Request
line_result = (parse_request_line (codes "GET /a?x HTTP/1.0\r\n") fresh).1

line_result-LineBounds : LineBounds line_result 19
unfolding parse_request_line step_line line_done method_of is_usual is_letter
line_result-LineBounds = record {
  method_within = omega arith;
  uri_after_method = omega arith;
  uri_nonempty = omega arith;
  parts_within = (tt, (omega arith, omega arith, tt));
  end_of_line = 17;
  line_ends = refl;
  uri_before_end = omega arith;
  protocol_within = (omega arith, omega arith);
  end_before_pos = omega arith;
  pos_within = omega arith;
  restarted = refl;
}

line_strings-Cut_example : Cut (codes "GET /a?x HTTP/1.0\r\n") line_result
line_strings-Cut_example =
    line_strings-Cut (codes "GET /a?x HTTP/1.0\r\n") line_result line_result-LineBounds

long_path-IsPlain : (n : ℕ) → IsPlain (replicate n b'a')
unfolding is_usual
long_path-IsPlain zero = tt
long_path-IsPlain (suc n) = (refl, long_path-IsPlain n)

abbrev long_path : Bytes
long_path = replicate 1010 b'a'

abbrev long_line : Bytes
long_line = line_text Verb.get long_path 1 1 []

long_line_overruns_example :
    ((parse_request_line long_line fresh).0 ≡ ok)
    × (copy_str smallbuf
          (line_strings long_line (parse_request_line long_line fresh).1).request_line
        ≡ none)
long_line_overruns_example =
    long_line_overruns Verb.get long_path 1 1 [] (long_path-IsPlain 1010) (omega arith, omega arith)
      (omega arith) (omega (arith, length-replicate {A = ℕ} 1010 b'a'))

dots_loop_iff_example : (dots_loop 0 (codes "/a/.\\./b") ≡ true) ↔ HasMarks (codes "/a/.\\./b")
dots_loop_iff_example = dots_loop_iff (codes "/a/.\\./b")

abbrev complex : Request
complex = record fresh { uri_start = 4; uri_end = 11; complex_uri = 1 }

read_http_values-query_text_example :
    read_http_values [] (query_text ((codes "a", codes "1 &") ∷ (codes "b", []) ∷ []))
    ≡ assign_all ((codes "a", codes "1 &") ∷ (codes "b", []) ∷ []) []
read_http_values-query_text_example =
    read_http_values-query_text ((codes "a", codes "1 &") ∷ (codes "b", []) ∷ []) [] (ground arith)

abbrev two_cookies : StrMap
two_cookies = (codes "Cookie", codes "lang=en; SPSID=1f") ∷ []

decode_cookies-last_example : decode_cookies two_cookies ≡ (codes "SPSID", plain (codes "1f")) ∷ []
unfolding lookup beq
decode_cookies-last_example =
    decode_cookies-last two_cookies
      (record { first = b'l'; others = codes "ang"; head = b'e'; tail = codes "n" })
      ((record { first = b'S'; others = codes "PSID"; head = b'1'; tail = codes "f" }) ∷ [])
      (ground arith) (ground arith, tt) refl
