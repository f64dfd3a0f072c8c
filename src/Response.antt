-- ===== src/Response.antt =====
-- src/core/connection.cpp: the answer to a request, from its head (`conn_compile_resp`) to the bytes
-- that are written to the socket (`conn_respond`).
pub mod Status
pub mod Layout
pub mod Send
use evcp.Base.{
  ℕ, ◌+◌, [], ◌∷◌, ◌++◌, List, none, some, Bool, true, false, Bytes, ltb, length, codes,
  if◌then◌else◌,
}
use evcp.Base.Maps.{StrMap, insert, lookup}
use evcp.Connection.Headers.{c_str}
use Status.{std_resp}

-- `sp_responce`. `buf` is what the first `len` bytes of the buffer hold, and `size` is what is
-- allocated for it.
pub record Response : Type 0 where
  pub buf : Bytes
  pub size : ℕ
  pub status : ℕ
  pub sent : ℕ
  pub needrefill : Bool
  pub h_sent : Bool
  pub h_out : StrMap

-- `conn_fillresp`; `realloc` says whether a request for so many bytes is met.
unfoldable pub fill_resp : (ℕ → Bool) → Bytes → Response → Bool × Response
fill_resp realloc text r =
    let needed = length r.buf + length text in
    let filled = record r { buf = r.buf ++ text } in
    if ltb r.size needed
    then if realloc (needed + 1) then (true, record filled { size = needed + 1 }) else (false, r)
    else (true, filled)

-- The calls in a row, whose results the source does not look at.
abbrev fill_all : (ℕ → Bool) → List Bytes → Response → Response
fill_all realloc [] r = r
fill_all realloc (t ∷ ts) r = fill_all realloc ts (fill_resp realloc t r).1

abbrev content_type : Bytes
content_type = codes "Content-Type"

-- `it->second += "; charset=utf8"`
unfoldable pub add_charset : StrMap → StrMap
add_charset m = elim (lookup content_type m) [
  | none ↦ m
  | some v ↦ insert content_type (v ++ codes "; charset=utf8") m
]

-- One header of the answer.
abbrev header_texts : Bytes × Bytes → List Bytes
header_texts (k, v) = c_str k ∷ codes ": " ∷ c_str v ∷ codes "\r\n" ∷ []

abbrev head_texts : StrMap → List Bytes
head_texts [] = codes "\r\n" ∷ []
head_texts (kv ∷ m) = header_texts kv ++ head_texts m

-- `conn_compile_resp`
unfoldable pub compile_resp : (ℕ → Bool) → Response → Response
unfolding fill_resp add_charset
compile_resp realloc r =
    let m = add_charset r.h_out in
    if r.h_sent
    then r
    else record (fill_all realloc (std_resp r.status ∷ head_texts m) (record r { h_out = m })) {
      h_sent = true;
    }
