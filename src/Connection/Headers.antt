-- ===== src/Connection/Headers.antt =====
-- src/core/connection.cpp, `conn_read`: the loop that collects the header lines.
pub mod Parts
use evcp.Base.{
  ℕ, zero, suc, ◌+◌, ◌-◌, ◌<◌, ◌≡◌, ◌⊎◌, inl, inr, ap, refl, ◌≢◌, [], ◌∷◌, ◌&&◌, true, Bytes, ltb,
  ◌==◌, if◌then◌else◌, take, drop, length, arith,
}
use evcp.Base.Maps.{StrMap, insert}
use evcp.Request.Header.{parse_header_line}
use evcp.Request.Header.Bounds.{AtLineStart, parse_header_line-AtLineStart}
use evcp.Request.Header.Invalid.{parse_header_line_again}
use evcp.Request.{ParseError, Code, ok, again, header_done, error, start, Request}

-- `SMALLBUF`
abbrev pub smallbuf : ℕ
smallbuf = 1024

-- The bytes from the offset `a` to the offset `b`.
abbrev pub slice : Bytes → ℕ → ℕ → Bytes
slice buf a b = take (b - a) (drop a buf)

-- What a `std::string` takes from a `char *`: the bytes in front of the first NUL.
unfoldable pub c_str : Bytes → Bytes
c_str [] = []
c_str (c ∷ cs) = let rest = c ∷ c_str cs in if c == 0 then [] else rest

-- A name or a value that does not fit the scratch buffer drops the header.
unfoldable pub store_header : Bytes → Request → StrMap → StrMap
unfolding c_str
store_header buf r m =
    if ltb (r.header_name_end - r.header_name_start) smallbuf
      && ltb (r.header_end - r.header_start) smallbuf
    then insert (c_str (slice buf r.header_name_start r.header_name_end))
        (c_str (slice buf r.header_start r.header_end)) m
    else m

-- How the loop ends: `goto again`, or `break` after the last header line. `running` is no end of
-- the loop: it has taken all the rounds that it was given.
pub data Headers : Type 0 where
  waits all_read : Request → StrMap → Headers
  running : Headers

abbrev pub after_line : Bytes → StrMap → Code × Request → (Request → StrMap → Headers) → Headers
after_line buf m (ok, r) rest = rest r (store_header buf r m)
after_line buf m (again, r) rest = waits r m
after_line buf m (header_done, r) rest = all_read r m
after_line buf m (error e, r) rest = rest r m

-- `for(;;) { cn = sp_parse_header_line(r,1); … }`
unfoldable pub read_headers : ℕ → Bytes → Request → StrMap → Headers
read_headers zero buf r m = running
read_headers (suc rounds) buf r m =
    after_line buf m (parse_header_line buf true r) (λ r' m'. read_headers rounds buf r' m')

-- A line that the loop comes to is refused by the parser.
pub data Refused (buf : Bytes) : Request → Type 0 where
  here :
      {r : Request} (e : ParseError) (q : Request)
      → parse_header_line buf true r ≡ (error e, q)
      → Refused buf r
  later :
      {r : Request} (q : Request)
      → parse_header_line buf true r ≡ (ok, q)
      → Refused buf q
      → Refused buf r

abbrev pub EndsOrRefused : Bytes → Request → Headers → Type 0
EndsOrRefused buf r h = (h ≢ running) ⊎ Refused buf r

after_line-EndsOrRefused :
    (rounds : ℕ) (buf : Bytes) (r : Request) (m : StrMap) (x : Code × Request)
    → parse_header_line buf true r ≡ x
    → ((q : Request) (m' : StrMap)
        → x ≡ (ok, q)
        → EndsOrRefused buf q (read_headers rounds buf q m'))
    → EndsOrRefused buf r (after_line buf m x (λ q m'. read_headers rounds buf q m'))
after_line-EndsOrRefused rounds buf r m (ok, q) e h = elim (h q (store_header buf q m) refl) [
  | inl ends ↦ inl ends
  | inr bad ↦ inr (later q e bad)
]
after_line-EndsOrRefused rounds buf r m (again, q) e h = inl (λ x. cc)
after_line-EndsOrRefused rounds buf r m (header_done, q) e h = inl (λ x. cc)
after_line-EndsOrRefused rounds buf r m (error w, q) e h = inr (here w q e)

-- From the start of a header line, a round for each byte that is left and one more are enough for
-- the loop to end, unless a line that it comes to is refused.
pub read_headers-EndsOrRefused :
    (rounds : ℕ) (buf : Bytes) (r : Request) (m : StrMap)
    → AtLineStart (length buf) r
    → length buf < r.pos + rounds
    → EndsOrRefused buf r (read_headers rounds buf r m)
unfolding read_headers
read_headers-EndsOrRefused zero buf r m v h = absurd (omega arith)
read_headers-EndsOrRefused (suc rounds) buf r m v h =
    after_line-EndsOrRefused rounds buf r m (parse_header_line buf true r) refl (λ q m' e.
      let (v', grows) = parse_header_line-AtLineStart buf true r q v e in
      read_headers-EndsOrRefused rounds buf q m' v' (omega arith))

spin :
    (rounds : ℕ) (buf : Bytes) (r : Request) (m : StrMap) (e : ParseError)
    → r.header_state ≡ start
    → (parse_header_line buf true r).0 ≡ error e
    → read_headers rounds buf r m ≡ running
unfolding read_headers
spin zero buf r m e h k = refl
spin (suc rounds) buf r m e h k =
    let q = (parse_header_line buf true r).1 in
    let eq : parse_header_line buf true r ≡ (error e, q) = ground arith in
    let (_, h', k') = parse_header_line_again buf true r q e h eq in
    rw (eq, read_headers) (spin rounds buf q m e h' k')

-- Once a line that it comes to is refused the loop never ends, whatever the number of rounds: the
-- parser is called on the same line for ever.
pub read_headers_never_ends :
    (rounds : ℕ) (buf : Bytes) (r : Request) (m : StrMap)
    → AtLineStart (length buf) r
    → Refused buf r
    → read_headers rounds buf r m ≡ running
unfolding read_headers
read_headers_never_ends zero buf r m v bad = refl
read_headers_never_ends (suc rounds) buf r m v (here e q k) =
    spin (suc rounds) buf r m e v.0 (ap (λ x. x.0) k)
read_headers_never_ends (suc rounds) buf r m v (later q k bad) =
    let (v', grows) = parse_header_line-AtLineStart buf true r q v k in
    rw (k, read_headers) (read_headers_never_ends rounds buf q (store_header buf q m) v' bad)
