-- ===== src/Connection/Headers/Parts.antt =====
-- src/core/connection.cpp, `conn_read`: header lines that arrive in parts.
use evcp.Base.{
  ℕ, zero, suc, ◌-◌, ◌≤◌, ◌≡◌, ◌≢◌, inl, inr, ap, refl, sym, subst, ◌∙◌, ◌++◌, Bytes, length, drop,
  arith, length-append, length-drop, take-append, drop-append, true,
}
use evcp.Base.Maps.{StrMap}
use evcp.Request.{Code, ok, again, header_done, error, Request}
use evcp.Request.Header.{parse_header_line}
use evcp.Request.Header.Bounds.{
  AtLineStart, Checked, parse_header_line-AtLineStart, parse_header_line-Checked,
}
use evcp.Request.Header.Resume.{Resumes, Agrees, resumed, parse_header_line-Resumes}
use evcp.Connection.Headers.{
  slice, store_header, Headers, waits, all_read, running, after_line, read_headers, here,
  read_headers_never_ends,
}

pub slice_of_part :
    (buf more : Bytes) (a b : ℕ) → a ≤ b → b ≤ length buf → slice (buf ++ more) a b ≡ slice buf a b
slice_of_part buf more a b h k =
    rw (drop-append a buf more (omega arith))
      (take-append (b - a) (drop a buf) more (omega (arith, length-drop a buf)))

-- What a header line stores is in the bytes that had come with it.
store_header-append :
    (buf more : Bytes) (r : Request) (m : StrMap)
    → Checked (length buf) (ok, r)
    → store_header (buf ++ more) r m ≡ store_header buf r m
unfolding store_header
store_header-append buf more r m v =
    let (places, _, within, _, _) = v in
    rw
      (
        slice_of_part buf more r.header_name_start r.header_name_end places.0 (omega arith),
        slice_of_part buf more r.header_start r.header_end (omega arith) (omega arith),
      )
      refl

one_more_round :
    (rounds : ℕ) (buf : Bytes) (r : Request) (m : StrMap)
    → read_headers rounds buf r m ≢ running
    → read_headers (suc rounds) buf r m ≡ read_headers rounds buf r m
unfolding read_headers
one_more_round zero buf r m ends = absurd (ends refl)
one_more_round (suc rounds) buf r m ends =
    after (parse_header_line buf true r) (λ q m'. one_more_round rounds buf q m') ends
  where
    after :
        (x : Code × Request)
        → ((q : Request) (m' : StrMap)
            → read_headers rounds buf q m' ≢ running
            → read_headers (suc rounds) buf q m' ≡ read_headers rounds buf q m')
        → after_line buf m x (λ r' m'. read_headers rounds buf r' m') ≢ running
        → after_line buf m x (λ r' m'. read_headers (suc rounds) buf r' m')
          ≡ after_line buf m x (λ r' m'. read_headers rounds buf r' m')
    after (ok, q) more h = more q (store_header buf q m) h
    after (again, q) more h = refl
    after (header_done, q) more h = refl
    after (error e, q) more h = more q m h

-- The loop ends in the same way, with the same headers, but for `lowcase_index` behind the last one.
pub data SameEnd : Headers → Headers → Type 0 where
  same : (h : Headers) → SameEnd h h
  last_read :
      (q : Request) (m : StrMap) (j : ℕ)
      → SameEnd (all_read q m) (all_read (record q { lowcase_index = j }) m)

AtLineStart-append :
    (buf more : Bytes) (r : Request)
    → AtLineStart (length buf) r
    → AtLineStart (length (buf ++ more)) r
AtLineStart-append buf more r (s, i, p) = (s, i, omega (arith, length-append buf more))

-- The loop's last call on the part stopped with `NGX_AGAIN`, and this is the first one with more.
goes_on :
    (rounds : ℕ) (buf : Bytes) (r : Request) (m : StrMap) (x y : Code × Request)
    → parse_header_line buf true r ≡ y
    → AtLineStart (length buf) r
    → Agrees x y
    → after_line buf m y (λ r' m'. read_headers rounds buf r' m') ≢ running
    → SameEnd
        (after_line buf m x (λ r' m'. read_headers rounds buf r' m'))
        (after_line buf m y (λ r' m'. read_headers rounds buf r' m'))
unfolding read_headers
goes_on rounds buf r m x y k v (inl e) ends =
    subst
      (λ (z : Code × Request).
        SameEnd (after_line buf m x (λ r' m'. read_headers rounds buf r' m'))
          (after_line buf m z (λ r' m'. read_headers rounds buf r' m')))
      e (same _)
goes_on rounds buf r m (c, q) y k v (inr (inl (j, h, e))) ends = rw (e, h) (last_read q m j)
goes_on rounds buf r m (c, q) y k v (inr (inr (w, a, t, j, h, e))) ends =
    let refused = k ∙ e ∙ ap (λ (d : Code). (d, resumed a t j q)) h in
    let never = read_headers_never_ends (suc rounds) buf r m v (here w _ refused) in
    absurd (
      ends (
        ap (λ (z : Code × Request). after_line buf m z (λ r' m'. read_headers rounds buf r' m'))
          (sym k)
        ∙ never))

SameEnd-ends : {h k : Headers} → SameEnd h k → k ≢ running → h ≢ running
SameEnd-ends (same h) ends = ends
SameEnd-ends (last_read q m j) ends = λ e. cc

SameEnd-along : {h h' k k' : Headers} → h ≡ h' → k ≡ k' → SameEnd h' k' → SameEnd h k
SameEnd-along e f s = rw (e, f) s

-- The first call of the loop over the first part, and what the call on all the bytes gives
first_call :
    (n rounds : ℕ) (buf more : Bytes) (r q : Request) (m m' : StrMap) (x : Code × Request)
    → AtLineStart (length buf) r
    → parse_header_line buf true r ≡ x
    → Resumes
        (length buf)
        (parse_header_line (buf ++ more) true)
        x
        (parse_header_line (buf ++ more) true r)
    → after_line buf m x (λ r' m1. read_headers n buf r' m1) ≡ waits q m'
    → read_headers (suc rounds) (buf ++ more) r m ≢ running
    → ((p : Request) (m1 : StrMap)
        → AtLineStart (length buf) p
        → read_headers n buf p m1 ≡ waits q m'
        → read_headers rounds (buf ++ more) p m1 ≢ running
        → SameEnd (read_headers rounds (buf ++ more) q m') (read_headers rounds (buf ++ more) p m1))
    → SameEnd
        (read_headers (suc rounds) (buf ++ more) q m')
        (read_headers (suc rounds) (buf ++ more) r m)
unfolding read_headers
first_call n rounds buf more r q m m' (again, p) v k (_, agrees) e ends rest =
    let same_request : p ≡ q = cc in
    let same_map : m ≡ m' = cc in
    rw (sym same_request, sym same_map)
      (goes_on rounds (buf ++ more) r m (parse_header_line (buf ++ more) true p) _ refl
        (AtLineStart-append buf more r v) agrees ends)
first_call n rounds buf more r q m m' (ok, p) v k whole e ends rest =
    let checked : Checked (length buf) (ok, p) =
      rw k at (parse_header_line-Checked buf true r (v.1, rw v.0 tt) v.2) in
    let all =
      ap
        (λ (z : Code × Request).
          after_line (buf ++ more) m z (λ r' m1. read_headers rounds (buf ++ more) r' m1))
        (sym whole)
      ∙ ap (λ (s : StrMap). read_headers rounds (buf ++ more) p s)
          (store_header-append buf more p m checked) in
    let ends' = λ (x : read_headers rounds (buf ++ more) p (store_header buf p m) ≡ running).
      ends (all ∙ x) in
    let done =
      rest p (store_header buf p m) (parse_header_line-AtLineStart buf true r p v k).0 e ends' in
    SameEnd-along (one_more_round rounds (buf ++ more) q m' (SameEnd-ends done ends')) all done
first_call n rounds buf more r q m m' (header_done, p) v k whole e ends rest =
    absurd (let f = e in cc)
first_call n rounds buf more r q m m' (error w, p) v k whole e ends rest =
    let never = read_headers_never_ends (suc n) buf r m v (here w p k) in
    let refused =
      ap (λ (z : Code × Request). after_line buf m z (λ r' m1. read_headers n buf r' m1)) k in
    absurd (let f = sym e ∙ sym refused ∙ never in cc)

-- Header lines that arrive in two parts are read as if they had come at once: if the loop over the first
-- part waits for more, and the loop over all the bytes ends, then the loop that goes on when the second
-- part has come ends in the same way, and with the same headers. A loop that waits has taken one round
-- for each line, and the first part ends anywhere.
pub read_headers_in_parts :
    (n rounds : ℕ) (buf more : Bytes) (r q : Request) (m m' : StrMap)
    → AtLineStart (length buf) r
    → read_headers n buf r m ≡ waits q m'
    → read_headers rounds (buf ++ more) r m ≢ running
    → SameEnd (read_headers rounds (buf ++ more) q m') (read_headers rounds (buf ++ more) r m)
unfolding read_headers
read_headers_in_parts zero rounds buf more r q m m' v e ends = absurd cc
read_headers_in_parts (suc n) zero buf more r q m m' v e ends = absurd (ends refl)
read_headers_in_parts (suc n) (suc rounds) buf more r q m m' v e ends =
    first_call n rounds buf more r q m m' (parse_header_line buf true r) v refl
      (parse_header_line-Resumes buf more true r v.2) e ends
      (λ p m1 v' e' ends'. read_headers_in_parts n rounds buf more p q m1 m' v' e' ends')
