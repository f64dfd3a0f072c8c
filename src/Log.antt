-- ===== src/Log.antt =====
-- src/core/splog.cpp, `LoggerClass::Write`: a text on one line of the log.
pub mod Files
pub mod Old
pub mod Lines
use evcp.Base.{◌+◌, ◌*◌, ◌≤◌, ◌≢◌, [], ◌∷◌, Bytes, length, take, ◌==◌, if◌then◌else◌, arith}
use evcp.Connection.Headers.{smallbuf}
use evcp.Request.Chars.{lf, cr}

-- `for(xpos=0; xpos<srclen; xpos++)`
unfoldable pub escape_line_ends : Bytes → Bytes
escape_line_ends [] = []
escape_line_ends (c ∷ st) =
    let rest = escape_line_ends st in
    if c == lf then b'\\' ∷ b'n' ∷ rest else if c == cr then b'\\' ∷ b'r' ∷ rest else c ∷ rest

-- `replacebuf`, for a text that has no NUL
unfoldable pub log_text : Bytes → Bytes
unfolding escape_line_ends
log_text st = escape_line_ends (take smallbuf st)

-- What is written, with its NUL, fits the `srclen*2+1` bytes that are allocated.
pub length-escape_line_ends : (st : Bytes) → length (escape_line_ends st) + 1 ≤ 2 * length st + 1
unfolding escape_line_ends
length-escape_line_ends [] = omega arith
length-escape_line_ends (c ∷ st) = ground (arith, length-escape_line_ends st)

abbrev pub IsOneLine : Bytes → Type 0
IsOneLine [] = Unit
IsOneLine (c ∷ st) = (c ≢ lf) × ((c ≢ cr) × IsOneLine st)

-- No line end is left, so that a text cannot forge a line of the log.
pub escape_line_ends-IsOneLine : (st : Bytes) → IsOneLine (escape_line_ends st)
unfolding escape_line_ends
escape_line_ends-IsOneLine [] = tt
escape_line_ends-IsOneLine (c ∷ st) = ground (arith, escape_line_ends-IsOneLine st)
