-- ===== src/Response/Send.antt =====
-- src/core/connection.cpp, `conn_respond` on a connection without TLS, and `sp_responce_senfile`.
pub mod Delivery
use evcp.Base.{
  ℕ, zero, suc, ◌+◌, ◌-◌, [], ◌∷◌, ◌++◌, List, Bool, true, false, Bytes, ltb, ◌==◌, take, drop,
  length, ◌||◌, Option, some, none, if◌then◌else◌,
}
use Prim.Native.Nat.{min}
use evcp.Response.{Response}

-- How `conn_respond` ends: by closing the connection with all sent, by handing over to the handler
-- that refills the buffer, or by closing it after a failed write. `blocks` is no end: the loop is
-- in a `write` whose result is not given.
pub data SendEnd : Type 0 where
  closed refills failed blocks : SendEnd

-- `write` is given `r->buf`, and not `r->buf + r->sent`.
abbrev pub written : Response → ℕ → Bytes
written r w = take w (take (length r.buf - r.sent) r.buf)

-- `for(;;)`; the list holds what `write` returns, 0 for an error too, and the last part of the
-- result is what has gone to the socket.
unfoldable pub respond_loop : List ℕ → Response → Bytes → SendEnd × Response × Bytes
respond_loop [] r out =
    if length r.buf == r.sent
    then if r.needrefill then (refills, record r { buf = []; sent = 0 }, out) else (closed, r, out)
    else (blocks, r, out)
respond_loop (w ∷ ws) r out =
    let rest = respond_loop ws (record r { sent = r.sent + w }) (out ++ written r w) in
    if length r.buf == r.sent
    then if r.needrefill then (refills, record r { buf = []; sent = 0 }, out) else (closed, r, out)
    else if ltb w 1
    then (failed, r, out)
    else rest

-- `conn_respond`
unfoldable pub respond : List ℕ → Response → SendEnd × Response × Bytes
unfolding respond_loop
respond ws r = respond_loop ws r []

-- A file that is being sent: what is not read of it yet, `fsize` and `fread`.
pub record Source : Type 0 where
  pub left : Bytes
  pub fsize : ℕ
  pub fread : ℕ

pub data FileEnd : Type 0 where
  drains read_error reading : FileEnd

-- `dlen`: the room in the buffer, but no more than is missing of the file
abbrev pub wanted : Source → Response → ℕ
wanted f r = min (r.size - length r.buf) (f.fsize - f.fread)

-- `read` gives `s` of the bytes that are asked for.
abbrev pub take_in : Source → ℕ → Source
take_in f s = record f { left = drop s f.left; fread = f.fread + s }

abbrev pub put_in : Source → Response → ℕ → Response
put_in f r s = record r { buf = r.buf ++ take s f.left }

-- The `for(;;)` of `sp_responce_senfile`; the list holds what `read` returns, `none` for an error.
-- `reading` is no end: the loop is in a `read` whose result is not given.
unfoldable pub fill_loop : List (Option ℕ) → Source → Response → FileEnd × Source × Response
fill_loop [] f r = (reading, f, r)
fill_loop (none ∷ ss) f r = (read_error, f, r)
fill_loop (some s ∷ ss) f r =
    let f' = take_in f s in
    let r' = put_in f r s in
    let complete = f'.fread == f'.fsize in
    let r'' = record r' { needrefill = if complete then false else r'.needrefill } in
    let rest = fill_loop ss f' r'' in
    if complete || r''.size == length r''.buf then (drains, f', r'') else rest

-- `sp_responce_senfile` behind the head
unfoldable pub send_file : List (Option ℕ) → Source → Response → FileEnd × Source × Response
unfolding fill_loop
send_file ss f r = fill_loop ss f (record r { needrefill = true })
