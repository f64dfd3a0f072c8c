-- ===== src/Connection/Read/Pieces.antt =====
-- src/core/connection.cpp, `conn_read`: a request that arrives in any number of reads.
use evcp.Base.{
  ap, ◌+◌, ◌<◌, ◌≤◌, length, length-append, arith, ℕ, ◌≡◌, ◌≢◌, inl, inr, refl, sym, ◌∙◌, [], ◌∷◌,
  ◌++◌, List, Bytes, Option-cases,
}
use evcp.Connection.Read.{
  Reading, ReadEnd, again_later, processes, finishes, closes, overruns, spins, dangles, opened,
  bytes, parse_more, conn_read, Regrown, mybufsz, read_head, line_read, with_line, bad_request,
}
use evcp.Connection.Read.Ends.{
  Alike, SameAnswer, both_wait, both_process, both_finish, both_same, parse_more-by_code,
  parse_more-headers, by_code, read_head-ended,
}
use evcp.Connection.Read.Parts.{
  next_event, conn_read_in_parts, AreReads, ended-waits, line_cut-waits, respond_next-answers,
}
use evcp.Connection.Headers.{read_headers}
use evcp.Request.{Code, ok, again, header_done, error, Request}

-- One event for each piece, as long as the connection waits
abbrev pub conn_reads : (ℕ → Regrown) → ℕ → List Bytes → Reading → ReadEnd
conn_reads regrow rounds [] c = again_later c
conn_reads regrow rounds (b ∷ bs) c = elim (conn_read regrow rounds (bytes b) c) [
  | again_later c' ↦ conn_reads regrow rounds bs c'
  | processes r ↦ processes r
  | finishes r ↦ finishes r
  | closes ↦ closes
  | overruns ↦ overruns
  | spins ↦ spins
  | dangles ↦ dangles
]

-- All the pieces, behind the bytes that have come before
abbrev pub joined : Bytes → List Bytes → Bytes
joined a [] = a
joined a (b ∷ bs) = joined (a ++ b) bs

-- Each piece holds a byte, and the loop over the header lines ends, however many of the pieces come in one
-- read.
abbrev pub Ends : (ℕ → Regrown) → ℕ → Bytes → List Bytes → Type 0
Ends regrow rounds a [] = Unit
Ends regrow rounds a (b ∷ bs) =
    (0 < length b)
    × ((conn_read regrow rounds (bytes (a ++ b)) opened ≢ spins) × Ends regrow rounds (a ++ b) bs)

with_size : (c d : Reading) → Alike c d → c.request ≡ d.request → c ≡ record d { size = c.size }
with_size c d (p, (q, (r, (s, (t, (u, v)))))) same = λ i. record {
  size = c.size;
  buf = p i;
  request = same i;
  line = q i;
  get_vars = r i;
  list = s i;
  post = t i;
  cookies = u i;
  status = v i;
}

-- What waits on one side waits on the other, with the same but for the size of the buffer.
waits_too :
    {e f : ReadEnd} (c : Reading)
    → SameAnswer e f
    → e ≡ again_later c
    → (d : Reading) × ((f ≡ again_later d) × (c ≡ record d { size = c.size }))
waits_too c (both_wait c' d a r) e =
    let same : c' ≡ c = cc in (d, (refl, rw (sym same) (with_size c' d a r)))
waits_too c (both_process c' d a) e = absurd cc
waits_too c (both_finish c' d a) e = absurd cc
waits_too c (both_same f) e = (c, (e, refl))

-- What a connection that waits has kept of its buffer
abbrev Kept : Reading → Reading → Type 0
Kept c c' = (c'.buf ≡ c.buf) × (c'.size ≡ c.size)

kept : (c c' d : Reading) → Kept c d → c' ≡ d → Kept c c'
kept c c' d (p, q) e = (ap (λ (x : Reading). x.buf) e ∙ p, ap (λ (x : Reading). x.size) e ∙ q)

read_head-Kept : (rounds : ℕ) (c c' : Reading) → read_head rounds c ≡ again_later c' → Kept c c'
read_head-Kept rounds c c' e =
    let (q, (m, (w, left))) =
      ended-waits c c' (read_headers rounds c.buf c.request c.list)
        (sym (read_head-ended rounds c) ∙ e) in
    kept c c' (record c { request = q; list = m }) (refl, refl) left

by_code-Kept :
    (rounds : ℕ) (c c' : Reading) (x : Code × Request)
    → by_code rounds c x ≡ again_later c'
    → Kept c c'
unfolding line_read
by_code-Kept rounds c c' (again, r) e =
    let same : record c { request = r } ≡ c' = cc in
    kept c c' (record c { request = r }) (refl, refl) (sym same)
by_code-Kept rounds c c' (ok, r) e =
    let c1 : Reading = record c { request = r } in
    let (_, (_, (_, head))) = line_cut-waits rounds c1 c' _ _ e in
    read_head-Kept rounds (with_line _ c1) c' head
by_code-Kept rounds c c' (header_done, r) e =
    absurd (respond_next-answers (bad_request (record c { request = r })) c' e)
by_code-Kept rounds c c' (error w, r) e =
    absurd (respond_next-answers (bad_request (record c { request = r })) c' e)

parse_more-Kept : (rounds : ℕ) (c c' : Reading) → parse_more rounds c ≡ again_later c' → Kept c c'
parse_more-Kept rounds c c' e = elim (Option-cases c.request.request_end) [
  | inl n ↦ by_code-Kept rounds c c' _ (sym (parse_more-by_code rounds c n) ∙ e)
  | inr (end, k) ↦ read_head-Kept rounds c c' (sym (parse_more-headers rounds end c k) ∙ e)
]

-- The connection as one read leaves it, waiting
read-Kept :
    (regrow : ℕ → Regrown) (rounds : ℕ) (a : Bytes) (d : Reading)
    → 0 < length a
    → length a < mybufsz
    → conn_read regrow rounds (bytes a) opened ≡ again_later d
    → (d.buf ≡ a) × (d.size ≡ mybufsz)
read-Kept regrow rounds a d h k e =
    parse_more-Kept rounds (record opened { buf = a }) d
      (sym (next_event regrow rounds a opened (omega arith) h (omega (arith, k))) ∙ e)

-- One more piece, when what has come before is as if it had come in one read
module _ (regrow : ℕ → Regrown) (rounds : ℕ) (a b : Bytes) (d c' : Reading)
    (waiting : conn_read regrow rounds (bytes a) opened ≡ again_later d) (reads : AreReads a b)
    (more : conn_read regrow rounds (bytes b) d ≡ again_later c')
    (ends : conn_read regrow rounds (bytes (a ++ b)) opened ≢ spins) where
  piece-Kept : c'.size ≡ mybufsz
  piece-Kept =
      let (buf, size) = read-Kept regrow rounds a d reads.0 (omega (arith, reads.1.0)) waiting in
      let filled : length d.buf ≡ length a = ap length buf in
      let next =
        next_event regrow rounds b d (omega (arith, reads.1.0, filled, size)) reads.1.1.0
          (omega (arith, reads.1.1.1, filled, size)) in
      (parse_more-Kept rounds (record d { buf = d.buf ++ b }) c' (sym next ∙ more)).1 ∙ size

  piece_waits : conn_read regrow rounds (bytes (a ++ b)) opened ≡ again_later c'
  piece_waits =
      let (d', (e, same)) =
        waits_too c' (conn_read_in_parts regrow rounds a b d reads waiting ends) more in
      let (_, size) =
        read-Kept regrow rounds (a ++ b) d' (omega (arith, length-append a b, reads.0))
          (omega (arith, length-append a b, reads.1.1.1)) e in
      let sized : c'.size ≡ d'.size = piece-Kept ∙ sym size in
      e ∙ ap again_later (sym (same ∙ ap (λ (n : ℕ). record d' { size = n }) sized))

-- The first of the pieces leaves the connection waiting, if all of them do.
pub first_waits :
    (regrow : ℕ → Regrown) (rounds : ℕ) (bs : List Bytes) (c : Reading) (e : ReadEnd)
    → elim e as (λ _. ReadEnd) [
      | again_later c' ↦ conn_reads regrow rounds bs c'
      | processes r ↦ processes r
      | finishes r ↦ finishes r
      | closes ↦ closes
      | overruns ↦ overruns
      | spins ↦ spins
      | dangles ↦ dangles
    ]
      ≡ again_later c
    → (c' : Reading) × ((e ≡ again_later c') × (conn_reads regrow rounds bs c' ≡ again_later c))
first_waits regrow rounds bs c (again_later c') f = (c', (refl, f))
first_waits regrow rounds bs c (processes r) f = absurd cc
first_waits regrow rounds bs c (finishes r) f = absurd cc
first_waits regrow rounds bs c closes f = absurd cc
first_waits regrow rounds bs c overruns f = absurd cc
first_waits regrow rounds bs c spins f = absurd cc
first_waits regrow rounds bs c dangles f = absurd cc

longer : (a : Bytes) (bs : List Bytes) → length a ≤ length (joined a bs)
longer a [] = omega arith
longer a (b ∷ bs) = omega (arith, length-append a b, longer (a ++ b) bs)

pieces_behind :
    (regrow : ℕ → Regrown) (rounds : ℕ) (a : Bytes) (bs : List Bytes) (last : Bytes) (d e : Reading)
    → 0 < length a
    → AreReads (joined a bs) last
    → conn_read regrow rounds (bytes a) opened ≡ again_later d
    → conn_reads regrow rounds bs d ≡ again_later e
    → Ends regrow rounds a bs
    → conn_read regrow rounds (bytes (joined a bs ++ last)) opened ≢ spins
    → SameAnswer
        (conn_read regrow rounds (bytes last) e)
        (conn_read regrow rounds (bytes (joined a bs ++ last)) opened)
pieces_behind regrow rounds a [] last d e some_bytes reads waiting f ends whole =
    let left : d ≡ e = cc in
    rw (sym left) (conn_read_in_parts regrow rounds a last d reads waiting whole)
pieces_behind regrow rounds a (b ∷ bs) last d e h reads waiting f (k, (ends, more)) whole =
    let (c', (first, rest)) =
      first_waits regrow rounds bs e (conn_read regrow rounds (bytes b) d) f in
    let room : length (a ++ b) + 512 ≤ mybufsz = omega (arith, longer (a ++ b) bs, reads.1.0) in
    let both : AreReads a b =
      (h, (omega (arith, length-append a b, room), (k, omega (arith, length-append a b, room)))) in
    pieces_behind regrow rounds (a ++ b) bs last c' e (omega (arith, length-append a b)) reads
      (piece_waits regrow rounds a b d c' waiting both first ends) rest more whole

-- A request that arrives in any number of reads is handled as if it had come in one: if every piece but
-- the last one leaves the connection waiting, wherever the bytes are divided, then the last one ends as one
-- read of all the bytes ends, with the same strings, variables, headers, cookies and status. It is so
-- for a request of less than 10240 bytes of which no more than 9728 come before the last read, so that the
-- buffer need not grow, if every piece holds a byte, and the loop over the header lines ends in that one
-- read, and in one read of any number of the first pieces.
pub conn_read_in_pieces :
    (regrow : ℕ → Regrown) (rounds : ℕ) (pieces : List Bytes) (last : Bytes) (c : Reading)
    → length (joined [] pieces) ≤ 9728
    → 0 < length last
    → length (joined [] pieces ++ last) < 10240
    → conn_reads regrow rounds pieces opened ≡ again_later c
    → Ends regrow rounds [] pieces
    → conn_read regrow rounds (bytes (joined [] pieces ++ last)) opened ≢ spins
    → SameAnswer
        (conn_read regrow rounds (bytes last) c)
        (conn_read regrow rounds (bytes (joined [] pieces ++ last)) opened)
conn_read_in_pieces regrow rounds [] last c room some_bytes fits waiting ends whole =
    let left : opened ≡ c = cc in
    rw (sym left) (both_same (conn_read regrow rounds (bytes last) opened))
conn_read_in_pieces regrow rounds (b ∷ bs) last c room some_bytes fits waiting (k, (first, more))
      whole =
    let (c', (e, rest)) =
      first_waits regrow rounds bs c (conn_read regrow rounds (bytes b) opened) waiting in
    let reads : AreReads (joined b bs) last = (
      omega (arith, longer b bs),
      (omega (arith, room), (some_bytes, omega (arith, length-append (joined b bs) last, fits))),
    ) in
    pieces_behind regrow rounds b bs last c' c k reads e rest more whole
