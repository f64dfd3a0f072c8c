-- ===== src/Request/Line/RoundTrip.antt =====
-- Request lines as a client prints them, read back by `sp_parse_request_line`.

use evcp.Base.{
  ℕ, ◌+◌, ◌-◌, ◌*◌, ◌<◌, ◌≡◌, refl, ◌∙◌, [], ◌∷◌, ◌++◌, some, Bytes, length, codes, arith, true,
  false,
}
use evcp.Request.Http
use evcp.Request.Chars.{is_usual, cr, lf}
use evcp.Request.Method.{method_of}
use evcp.Request.Line.{step_line, line_done, line_loop, parse_request_line}
use evcp.Request.{
  ok, start, spaces_before_uri, after_slash_in_uri, check_uri, http_09, Request, fresh,
}

-- The methods that the `switch (p - m)` knows.
pub data Verb : Type 0 where
  get head post put delete mkcol copy move options propfind proppatch lock unlock trace : Verb

abbrev pub verb_name : Verb → Bytes
verb_name get = codes "GET"
verb_name head = codes "HEAD"
verb_name post = codes "POST"
verb_name put = codes "PUT"
verb_name delete = codes "DELETE"
verb_name mkcol = codes "MKCOL"
verb_name copy = codes "COPY"
verb_name move = codes "MOVE"
verb_name options = codes "OPTIONS"
verb_name propfind = codes "PROPFIND"
verb_name proppatch = codes "PROPPATCH"
verb_name lock = codes "LOCK"
verb_name unlock = codes "UNLOCK"
verb_name trace = codes "TRACE"

abbrev pub verb_code : Verb → ℕ
verb_code get = Http.get
verb_code head = Http.head
verb_code post = Http.post
verb_code put = Http.put
verb_code delete = Http.delete
verb_code mkcol = Http.mkcol
verb_code copy = Http.copy
verb_code move = Http.move
verb_code options = Http.options
verb_code propfind = Http.propfind
verb_code proppatch = Http.proppatch
verb_code lock = Http.lock
verb_code unlock = Http.unlock
verb_code trace = Http.trace

-- A path without suffixes, arguments, escapes, and with one slash at its front.
abbrev pub IsPlain : Bytes → Type 0
IsPlain [] = Unit {0}
IsPlain (c ∷ cs) = (is_usual c ≡ true) × IsPlain cs

-- `HTTP/<major>.<minor>`, of one digit each, and the line's end
abbrev pub version_text : ℕ → ℕ → Bytes → Bytes
version_text major minor rest =
    b'H' ∷ b'T' ∷ b'T' ∷ b'P' ∷ b'/' ∷ (b'0' + major) ∷ b'.' ∷ (b'0' + minor) ∷ cr ∷ lf ∷ rest

abbrev pub line_text : Verb → Bytes → ℕ → ℕ → Bytes → Bytes
line_text v path major minor rest =
    verb_name v ++ b' ' ∷ b'/' ∷ (path ++ b' ' ∷ version_text major minor rest)

-- The request in front of the URI.
abbrev named : Verb → Request
named v = record fresh { method_end = length (verb_name v) - 1; method = verb_code v }

line_loop-verb :
    (v : Verb) (rest : Bytes)
    → let buf = verb_name v ++ b' ' ∷ rest in
      line_loop buf start fresh 0 buf
      ≡ line_loop buf spaces_before_uri (named v) (length (verb_name v) + 1) rest
unfolding line_loop step_line method_of
line_loop-verb get rest = refl
line_loop-verb _ rest = refl

space_not_usual : is_usual b' ' ≡ false
unfolding is_usual
space_not_usual = refl

line_loop-check_uri :
    (buf path rest : Bytes) (r : Request) (p : ℕ)
    → IsPlain path
    → line_loop buf check_uri r p (path ++ b' ' ∷ rest)
      ≡ line_loop buf http_09 (record r { uri_end = p + length path }) (p + length path + 1) rest
unfolding line_loop step_line
line_loop-check_uri buf [] rest r p h = ground (arith, space_not_usual)
line_loop-check_uri buf (c ∷ cs) rest r p h =
    ground (arith, line_loop-check_uri buf cs rest r (p + 1) h.1)

line_loop-path :
    (buf path rest : Bytes) (r : Request) (p : ℕ)
    → IsPlain path
    → line_loop buf after_slash_in_uri r p (path ++ b' ' ∷ rest)
      ≡ line_loop buf http_09 (record r { uri_end = p + length path }) (p + length path + 1) rest
unfolding line_loop step_line
line_loop-path buf [] rest r p h = ground (arith, space_not_usual)
line_loop-path buf (c ∷ cs) rest r p h =
    ground (arith, line_loop-check_uri buf cs rest r (p + 1) h.1)

to_path :
    (buf rest : Bytes) (r : Request) (p : ℕ)
    → line_loop buf spaces_before_uri r p (b'/' ∷ rest)
      ≡ line_loop buf after_slash_in_uri (record r { uri_start = p }) (p + 1) rest
unfolding line_loop step_line
to_path buf rest r p = refl

line_loop-version :
    (buf rest : Bytes) (r : Request) (p major minor : ℕ)
    → (0 < major) × (major < 10)
    → minor < 10
    → line_loop buf http_09 r p (version_text major minor rest)
      ≡ line_done
          (record r {
            http_protocol = some p;
            http_major = major;
            http_minor = minor;
            request_end = some (p + 8);
          })
          (p + 9)
unfolding line_loop step_line
line_loop-version buf rest r p major minor h k = ground arith

-- The request that a plain request line leaves behind: `n` is the length of the method's name, and
-- `m` that of the path behind its first slash.
abbrev pub parsed : Verb → ℕ → ℕ → ℕ → ℕ → Request
parsed v n m major minor = record fresh {
  pos = n + m + 13;
  method = verb_code v;
  method_end = n - 1;
  uri_start = n + 1;
  uri_end = n + m + 2;
  http_protocol = some (n + m + 3);
  http_major = major;
  http_minor = minor;
  http_version = major * 1000 + minor;
  request_end = some (n + m + 11);
}

line_done-parsed :
    (v : Verb) (n m major minor : ℕ)
    → 0 < major
    → line_done
        (record (named v) {
          method_end = n - 1;
          uri_start = n + 1;
          uri_end = n + 1 + 1 + m;
          http_protocol = some (n + 1 + 1 + m + 1);
          http_major = major;
          http_minor = minor;
          request_end = some (n + 1 + 1 + m + 1 + 8);
        })
        (n + 1 + 1 + m + 1 + 9)
      ≡ (ok, parsed v n m major minor)
unfolding line_done
line_done-parsed v n m major minor h = ground arith

-- Every method, with every path of plain characters behind its one slash and every version of two
-- digits, the first of which is not 0, is read back from its request line: the code is `NGX_OK`, the
-- method is the one that was named, the URI and the protocol are where they were printed, and `pos`
-- is the first byte behind the line, whatever bytes follow.
pub parse-line_text :
    (v : Verb) (path : Bytes) (major minor : ℕ) (rest : Bytes)
    → IsPlain path
    → (0 < major) × (major < 10)
    → minor < 10
    → parse_request_line (line_text v path major minor rest) fresh
      ≡ (ok, parsed v (length (verb_name v)) (length path) major minor)
unfolding parse_request_line
parse-line_text v path major minor rest h k l =
    line_loop-verb v _
    ∙ to_path (line_text v path major minor rest) _ (named v) (length (verb_name v) + 1)
    ∙ line_loop-path (line_text v path major minor rest) path _ _ _ h
    ∙ line_loop-version (line_text v path major minor rest) rest _ _ major minor k l
    ∙ line_done-parsed v (length (verb_name v)) (length path) major minor k.0
