-- ===== src/Connection/Read/Parts.antt =====
-- src/core/connection.cpp, `conn_read`: a request that arrives in two reads.
use evcp.Base.{
  ◌==◌, ◌<◌, ◌≤◌, take, take_long, length-append, ℕ, zero, suc, ◌+◌, ◌-◌, ◌≡◌, ◌≢◌, inl, inr, ap,
  refl, sym, ◌∙◌, [], ◌++◌, Option, none, some, Bool, true, false, Bytes, length, arith,
  if◌then◌else◌, ltb, Bool-cases,
}
use evcp.Base.Maps.{StrMap}
use evcp.Request.{Code, ok, again, header_done, error, Request, fresh}
use evcp.Request.Header.{parse_header_line}
use evcp.Request.Line.{parse_request_line}
use evcp.Request.Line.Bounds.{LineBounds, parse_request_line-Checked, fresh-Inv, again-unset}
use evcp.Request.Line.Resume.{Resumes, parse_request_line-Resumes}
use evcp.Request.Header.Bounds.{AtLineStart}
use evcp.Connection.Headers.{
  smallbuf, Headers, waits, all_read, running, store_header, after_line, read_headers,
}
use evcp.Connection.Headers.Parts.{read_headers_in_parts}
use evcp.Connection.Line.{Strings, copy_str, line_strings, refuses_uri}
use evcp.Connection.Read.{
  Reading, ReadEnd, again_later, overruns, spins, opened, bytes, respond_next, head_read, read_head,
  bad_request, with_line, line_cut, line_read, parse_more, conn_read, Regrown, grow, read_into,
  received, mybufsz, dangles,
}
use evcp.Connection.Read.Kept.{Keeps, parse_request_line-Keeps, parse_header_line-request_end}
use evcp.Connection.Read.Appended.{line_strings-append, refuses_uri-append}
use evcp.Connection.Read.Ends.{
  SameAnswer, ended, ended-SameAnswer, read_head-ended, by_code, parse_more-by_code,
  parse_more-headers, by_code-Agrees,
}

pub read_headers-request_end :
    (n : ℕ) (buf : Bytes) (r q : Request) (m m' : StrMap)
    → read_headers n buf r m ≡ waits q m'
    → q.request_end ≡ r.request_end
unfolding read_headers
read_headers-request_end zero buf r q m m' e = absurd cc
read_headers-request_end (suc n) buf r q m m' e =
    each (parse_header_line buf true r) (parse_header_line-request_end buf true r) e
      (λ p m1 e'. read_headers-request_end n buf p q m1 m' e')
  where
    each :
        (x : Code × Request)
        → x.1.request_end ≡ r.request_end
        → after_line buf m x (λ p m1. read_headers n buf p m1) ≡ waits q m'
        → ((p : Request) (m1 : StrMap)
            → read_headers n buf p m1 ≡ waits q m'
            → q.request_end ≡ p.request_end)
        → q.request_end ≡ r.request_end
    each (again, p) k e rest = (let s : p ≡ q = cc in rw (sym s) k)
    each (ok, p) k e rest = rest p (store_header buf p m) e ∙ k
    each (header_done, p) k e rest = absurd (let f = e in cc)
    each (error w, p) k e rest = rest p m e ∙ k

grow-stays :
    (regrow : ℕ → Regrown) (c : Reading) → length c.buf + 512 ≤ c.size → grow regrow c ≡ some c
unfolding grow
grow-stays regrow c room = ground arith

-- There is room for the bytes in the buffer as it is.
read_into-fits :
    (regrow : ℕ → Regrown) (b : Bytes) (c : Reading)
    → length c.buf + 512 ≤ c.size
    → length b ≤ c.size - length c.buf
    → read_into regrow b c ≡ some (record c { buf = c.buf ++ b })
unfolding read_into
read_into-fits regrow b c room fits =
    ap
      (λ (o : Option Reading). elim o as (λ _. Option Reading) [
        | none ↦ none
        | some d ↦ some (record d { buf = d.buf ++ take (d.size - length d.buf) b })
      ])
      (grow-stays regrow c room)
    ∙ ap (λ (t : Bytes). some (record c { buf = c.buf ++ t }))
        (take_long (c.size - length c.buf) b fits)

received-more :
    (rounds : ℕ) (c d : Reading)
    → length c.buf < length d.buf
    → length d.buf < d.size
    → received rounds c d ≡ parse_more rounds d
unfolding received
received-more rounds c d more within =
    let some_bytes : (length d.buf == length c.buf) ≡ false = ground arith in
    let fits : ltb (length d.buf) d.size ≡ true = ground arith in rw (some_bytes, fits) refl

-- The event in which more bytes come, when there is room for them in the buffer as it is
pub next_event :
    (regrow : ℕ → Regrown) (rounds : ℕ) (b : Bytes) (c : Reading)
    → length c.buf + 512 ≤ c.size
    → 0 < length b
    → length c.buf + length b < c.size
    → conn_read regrow rounds (bytes b) c ≡ parse_more rounds (record c { buf = c.buf ++ b })
unfolding conn_read
next_event regrow rounds b c room some_bytes fits =
    ap
      (λ (o : Option Reading). elim o as (λ _. ReadEnd) [
        | none ↦ dangles
        | some d ↦ received rounds c d
      ])
      (read_into-fits regrow b c room (omega arith))
    ∙ received-more rounds c (record c { buf = c.buf ++ b }) (omega (arith, length-append c.buf b))
        (omega (arith, length-append c.buf b))

-- The connection after its first bytes
abbrev started : Bytes → Reading
started a = record opened { buf = a }

-- A read that brings something, but does not fill the first buffer
abbrev pub IsRead : Bytes → Type 0
IsRead a = (0 < length a) × (length a < mybufsz)

first_event :
    (regrow : ℕ → Regrown) (rounds : ℕ) (a : Bytes)
    → IsRead a
    → conn_read regrow rounds (bytes a) opened
      ≡ by_code rounds (started a) (parse_request_line a fresh)
first_event regrow rounds a (h, k) =
    next_event regrow rounds a opened (omega arith) h (omega (arith, k))
    ∙ parse_more-by_code rounds (started a) refl

-- Two reads that do not make the buffer grow, nor fill it
abbrev pub AreReads : Bytes → Bytes → Type 0
AreReads a b =
    (0 < length a)
    × ((length a + 512 ≤ mybufsz) × ((0 < length b) × (length a + length b < mybufsz)))

append-IsRead : (a b : Bytes) → AreReads a b → IsRead (a ++ b)
append-IsRead a b (p, (q, (r, s))) =
    (omega (arith, length-append a b), omega (arith, length-append a b))

SameAnswer-along : {e e' f f' : ReadEnd} → e ≡ e' → f ≡ f' → SameAnswer e' f' → SameAnswer e f
SameAnswer-along h k s = rw (h, k) s

-- The first part ends within the request line.
line_in_parts :
    (regrow : ℕ → Regrown) (rounds : ℕ) (a b : Bytes) (r : Request)
    → AreReads a b
    → parse_request_line a fresh ≡ (again, r)
    → SameAnswer
        (conn_read regrow rounds (bytes b) (record (started a) { request = r }))
        (conn_read regrow rounds (bytes (a ++ b)) opened)
line_in_parts regrow rounds a b r reads e =
    let next =
      next_event regrow rounds b (record (started a) { request = r }) reads.1.0 reads.1.1.0
        reads.1.1.1 in
    let unset = again-unset a fresh r fresh-Inv (omega arith) e in
    let (_, agrees) : Resumes (length a) (parse_request_line (a ++ b)) (again, r)
        (parse_request_line (a ++ b) fresh) =
      rw e at (parse_request_line-Resumes a b fresh (omega arith)) in
    SameAnswer-along
      (next ∙ parse_more-by_code rounds (record opened { buf = a ++ b; request = r }) unset)
      (first_event regrow rounds (a ++ b) (append-IsRead a b reads))
      (by_code-Agrees rounds mybufsz (started (a ++ b)) r _ _ agrees)

pub respond_next-answers : (c c' : Reading) → respond_next c ≢ again_later c'
unfolding respond_next
respond_next-answers c c' e = elim (Bool-cases (ltb c.status 299)) [
  | inl y ↦ (let f = rw y at e in cc)
  | inr n ↦ (let f = rw n at e in cc)
]

pub head_read-answers : (c c' : Reading) → head_read c ≢ again_later c'
unfolding head_read
head_read-answers c c' e = respond_next-answers _ c' e

-- The lines are cut, and the loop over the header lines waits.
pub line_cut-waits :
    (rounds : ℕ) (c c' : Reading) (line : Strings) (refused : Bool)
    → line_cut rounds c line refused ≡ again_later c'
    → (refused ≡ false)
      × ((copy : Bytes) × ((copy_str smallbuf line.request_line ≡ some copy)
            × (read_head rounds (with_line line c) ≡ again_later c')))
unfolding line_cut
line_cut-waits rounds c c' line refused e =
    each (copy_str smallbuf line.request_line) refl refused e
  where
    each :
        (o : Option Bytes)
        → copy_str smallbuf line.request_line ≡ o
        → (b : Bool)
        → elim o [
          | none ↦ overruns
          | some copy ↦
              if b
              then respond_next (bad_request (record c { list = [] }))
              else read_head rounds (with_line line c)
        ]
          ≡ again_later c'
        → (b ≡ false)
          × ((copy : Bytes) × ((copy_str smallbuf line.request_line ≡ some copy)
                × (read_head rounds (with_line line c) ≡ again_later c')))
    each none k b f = absurd cc
    each (some copy) k true f =
        absurd (respond_next-answers (bad_request (record c { list = [] })) c' f)
    each (some copy) k false f = (refl, (copy, (k, f)))

line_cut-reads :
    (rounds : ℕ) (c : Reading) (line : Strings) (refused : Bool) (copy : Bytes)
    → refused ≡ false
    → copy_str smallbuf line.request_line ≡ some copy
    → line_cut rounds c line refused ≡ read_head rounds (with_line line c)
unfolding line_cut
line_cut-reads rounds c line refused copy f k =
    ap (λ (o : Option Bytes). elim o [ none ↦ overruns | some copy' ↦ chosen refused ]) k
    ∙ ap chosen f
  where
    chosen : Bool → ReadEnd
    chosen b =
        if b
        then respond_next (bad_request (record c { list = [] }))
        else read_head rounds (with_line line c)

pub ended-waits :
    (c c' : Reading) (h : Headers)
    → ended c h ≡ again_later c'
    → (q : Request) × ((m : StrMap) × ((h ≡ waits q m) × (c' ≡ record c { request = q; list = m })))
ended-waits c c' (waits q m) e = (q, (m, (refl, cc)))
ended-waits c c' (all_read q m) e = absurd (head_read-answers _ c' e)
ended-waits c c' running e = absurd cc

-- The first part ends within the header lines.
headers_in_parts :
    (regrow : ℕ → Regrown) (rounds : ℕ) (a b : Bytes) (r : Request) (c' : Reading)
    → AreReads a b
    → parse_request_line a fresh ≡ (ok, r)
    → line_read rounds (record (started a) { request = r }) ≡ again_later c'
    → conn_read regrow rounds (bytes (a ++ b)) opened ≢ spins
    → SameAnswer
        (conn_read regrow rounds (bytes b) c')
        (conn_read regrow rounds (bytes (a ++ b)) opened)
unfolding line_read
headers_in_parts regrow rounds a b r c' reads e f ends =
    let bounds : LineBounds r (length a) =
      rw e at (parse_request_line-Checked a fresh fresh-Inv (omega arith)) in
    let kept : Keeps fresh r = kept_fields e in
    let part = record (started a) { request = r } in
    let line = line_strings a r in
    let (fine, (copy, (copied, head))) = line_cut-waits rounds part c' line (refuses_uri a r) f in
    let at_first : Headers = read_headers rounds a r [] in
    let (q, (m, (waiting, left))) =
      ended-waits (with_line line part) c' at_first
        (sym (read_head-ended rounds (with_line line part)) ∙ head) in
    let whole = record (started (a ++ b)) { request = r } in
    let resumed : (ok, r) ≡ parse_request_line (a ++ b) fresh = part_done e in
    let all =
      first_event regrow rounds (a ++ b) (append-IsRead a b reads)
      ∙ ap (by_code rounds (started (a ++ b))) (sym resumed)
      ∙ ap (λ (l : Strings). line_cut rounds whole l (refuses_uri (a ++ b) r))
          (line_strings-append a b r bounds)
      ∙ ap (λ (x : Bool). line_cut rounds whole line x) (refuses_uri-append a b r bounds)
      ∙ line_cut-reads rounds whole line (refuses_uri a r) copy fine copied
      ∙ read_head-ended rounds (with_line line whole) in
    let at_start : AtLineStart (length a) r =
      (kept.0, (omega (arith, kept.1.0), ap length kept.1.1), bounds.pos_within) in
    let ends' = λ (x : read_headers rounds (a ++ b) r [] ≡ running).
      ends (all ∙ ap (ended (with_line line whole)) x) in
    let headers = read_headers_in_parts rounds rounds a b r q [] m at_start waiting ends' in
    let filled : length c'.buf ≡ length a = ap (λ (x : Reading). length x.buf) left in
    let sized : c'.size ≡ mybufsz = ap (λ (x : Reading). x.size) left in
    let next =
      next_event regrow rounds b c' (omega (arith, reads.1.0, filled, sized)) reads.1.1.0
        (omega (arith, reads.1.1.1, filled, sized)) in
    let second = record (with_line line whole) { request = q; list = m } in
    let known = read_headers-request_end rounds a r q [] m waiting ∙ bounds.line_ends in
    let goes_on =
      next
      ∙ ap (λ (c : Reading). parse_more rounds (record c { buf = c.buf ++ b })) left
      ∙ parse_more-headers rounds bounds.end_of_line second known
      ∙ read_head-ended rounds second in
    SameAnswer-along goes_on all (ended-SameAnswer (with_line line whole) mybufsz q m _ _ headers)
  where
    kept_fields : parse_request_line a fresh ≡ (ok, r) → Keeps fresh r
    kept_fields e = rw e at (parse_request_line-Keeps a fresh)

    part_done : parse_request_line a fresh ≡ (ok, r) → (ok, r) ≡ parse_request_line (a ++ b) fresh
    part_done e = rw e at (parse_request_line-Resumes a b fresh (omega arith))

-- A request that arrives in two reads is handled as if it had come in one: if the first read leaves the
-- connection waiting, wherever the bytes are divided, then the second one ends as one read of all the
-- bytes ends, with the same strings, variables, headers, cookies and status, whatever the size of the
-- buffer. It is so if the loop over the header lines ends in that one read.
pub conn_read_in_parts :
    (regrow : ℕ → Regrown) (rounds : ℕ) (a b : Bytes) (c : Reading)
    → AreReads a b
    → conn_read regrow rounds (bytes a) opened ≡ again_later c
    → conn_read regrow rounds (bytes (a ++ b)) opened ≢ spins
    → SameAnswer
        (conn_read regrow rounds (bytes b) c)
        (conn_read regrow rounds (bytes (a ++ b)) opened)
conn_read_in_parts regrow rounds a b c reads waiting ends =
    each (parse_request_line a fresh) refl (sym (first_event regrow rounds a first) ∙ waiting)
  where
    first : IsRead a
    first = (reads.0, omega (arith, reads.1.0))

    each :
        (x : Code × Request)
        → parse_request_line a fresh ≡ x
        → by_code rounds (started a) x ≡ again_later c
        → SameAnswer
            (conn_read regrow rounds (bytes b) c)
            (conn_read regrow rounds (bytes (a ++ b)) opened)
    each (again, r) e f =
        let left : record (started a) { request = r } ≡ c = cc in
        rw (sym left) (line_in_parts regrow rounds a b r reads e)
    each (ok, r) e f = headers_in_parts regrow rounds a b r c reads e f ends
    each (header_done, r) e f =
        absurd (respond_next-answers (bad_request (record (started a) { request = r })) c f)
    each (error w, r) e f =
        absurd (respond_next-answers (bad_request (record (started a) { request = r })) c f)
