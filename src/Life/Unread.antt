-- ===== src/Life/Unread.antt =====
-- src/core/connection.cpp, `conn_read`: when the maps of a request are made.
use evcp.Base.{
  ℕ, ◌+◌, ◌≡◌, ◌≢◌, refl, sym, ap, ◌∙◌, inl, inr, [], ◌∷◌, ◌++◌, Option, none, some, Bool, true,
  false, Bytes, Option-cases, arith, subst, drop, take, ◌-◌, ◌==◌, length, ltb, Bool-cases,
}
use evcp.Connection.Read
use evcp.Connection.Read.{
  Reading, Got, failed, closed, bytes, ReadEnd, again_later, processes, finishes, closes, spins,
  dangles, Regrown, reqbufpart, grow, read_into, received, conn_read, parse_more, read_head,
  line_read, line_cut, respond_next, bad_request, with_line,
}
use evcp.Connection.Read.Ends.{
  Settled, parse_more-Settled, by_code, parse_more-by_code, parse_more-headers, read_head-ended,
}
use evcp.Connection.Read.Parts.{
  respond_next-answers, line_cut-waits, read_headers-request_end, ended-waits,
}
use evcp.Connection.Headers.{read_headers}
use evcp.Request.{
  Code, ok, again, header_done, error, Request, LineState, Outcome, go, done, finished, fail,
}
use evcp.Request.Line.{parse_request_line, line_loop, line_done, after_step, step_line}
use evcp.Life.Events.{is_ok, if_unset, line_ok, line_parsed}

-- After `NGX_OK` the end of the request line is set.
abbrev OkEnds : Code × Request → Type 0
OkEnds (ok, r) = r.request_end ≢ none
OkEnds _ = Unit

line_done-OkEnds : (r : Request) (p : ℕ) → OkEnds (line_done r p)
unfolding line_done
line_done-OkEnds r p = ground arith

after_step-OkEnds :
    (o : Outcome LineState) (p : ℕ) (rest : LineState → Request → Code × Request)
    → ((s : LineState) (q : Request) → OkEnds (rest s q))
    → OkEnds (after_step o p rest)
after_step-OkEnds (go s q) p rest k = k s q
after_step-OkEnds (done q) p rest k = line_done-OkEnds q p
after_step-OkEnds (finished q) p rest k = line_done-OkEnds q p
after_step-OkEnds (fail e q) p rest k = tt

line_loop-OkEnds :
    (buf rest : Bytes) (s : LineState) (r : Request) (p : ℕ) → OkEnds (line_loop buf s r p rest)
unfolding line_loop
line_loop-OkEnds buf [] s r p = tt
line_loop-OkEnds buf (ch ∷ rest) s r p =
    after_step-OkEnds (step_line buf s r p ch) p _ (λ s' q. line_loop-OkEnds buf rest s' q (p + 1))

parse-OkEnds : (buf : Bytes) (r : Request) → OkEnds (parse_request_line buf r)
unfolding parse_request_line
parse-OkEnds buf r = line_loop-OkEnds buf (drop r.pos buf) r.line_state r r.pos

-- If the connection waits and the end of the request line is not set, then it was not set before, and
-- the maps have not been made.
abbrev pub Unread : Bool → Option ℕ → ReadEnd → Type 0
Unread made old (again_later r) = r.request.request_end ≡ none → (made ≡ false) × (old ≡ none)
Unread made old _ = Unit

answers-Unread :
    (made : Bool) (old : Option ℕ) (e : ReadEnd)
    → ((c : Reading) → e ≢ again_later c)
    → Unread made old e
answers-Unread made old (again_later r) h = absurd (h r refl)
answers-Unread made old (processes r) h = tt
answers-Unread made old (finishes r) h = tt
answers-Unread made old closes h = tt
answers-Unread made old Read.overruns h = tt
answers-Unread made old spins h = tt
answers-Unread made old dangles h = tt

waits-Unread :
    (made : Bool) (old : Option ℕ) (e : ReadEnd)
    → ((c : Reading) → e ≡ again_later c → c.request.request_end ≢ none)
    → Unread made old e
waits-Unread made old (again_later r) h = λ n. absurd (h r refl n)
waits-Unread made old (processes r) h = tt
waits-Unread made old (finishes r) h = tt
waits-Unread made old closes h = tt
waits-Unread made old Read.overruns h = tt
waits-Unread made old spins h = tt
waits-Unread made old dangles h = tt

read_head-request_end :
    (rounds : ℕ) (c c' : Reading)
    → c.request.request_end ≢ none
    → read_head rounds c ≡ again_later c'
    → c'.request.request_end ≢ none
read_head-request_end rounds c c' h e n =
    let (q, (m, (w, left))) =
      ended-waits c c' (read_headers rounds c.buf c.request c.list)
        (sym (read_head-ended rounds c) ∙ e) in
    h (
      sym (read_headers-request_end rounds c.buf c.request q c.list m w)
      ∙ ap (λ (x : Reading). x.request.request_end) (sym left)
      ∙ n)

by_code-Unread :
    (rounds : ℕ) (c : Reading) (made : Bool) (x : Code × Request)
    → OkEnds x
    → c.request.request_end ≡ none
    → (x.0 ≡ again → made ≡ false)
    → Unread made c.request.request_end (by_code rounds c x)
unfolding line_read
by_code-Unread rounds c made (again, r) h k m = λ n. (m refl, k)
by_code-Unread rounds c made (ok, r) h k m = waits-Unread made _ _ (λ c' e.
    let c1 : Reading = record c { request = r } in
    let (_, (_, (_, head))) = line_cut-waits rounds c1 c' _ _ e in
    read_head-request_end rounds (with_line _ c1) c' h head)
by_code-Unread rounds c made (header_done, r) h k m =
    answers-Unread made c.request.request_end _
      (respond_next-answers (bad_request (record c { request = r })))
by_code-Unread rounds c made (error w, r) h k m =
    answers-Unread made c.request.request_end _
      (respond_next-answers (bad_request (record c { request = r })))

line_ok-again :
    (d : Reading)
    → d.request.request_end ≡ none
    → (parse_request_line d.buf d.request).0 ≡ again
    → line_ok d ≡ false
unfolding line_ok
line_ok-again d n e =
    ap (λ (o : Option ℕ). if_unset o (is_ok (parse_request_line d.buf d.request).0)) n ∙ ap is_ok e

parse_more-Unread :
    (rounds : ℕ) (d : Reading) → Unread (line_ok d) d.request.request_end (parse_more rounds d)
parse_more-Unread rounds d =
    let Here = Unread (line_ok d) d.request.request_end in
    elim (Option-cases d.request.request_end) [
      | inl n ↦ subst Here (sym (parse_more-by_code rounds d n)) (
          by_code-Unread rounds d (line_ok d) (parse_request_line d.buf d.request)
            (parse-OkEnds d.buf d.request) n (line_ok-again d n))
      | inr (end, k) ↦ subst Here (sym (parse_more-headers rounds end d k)) (
          waits-Unread _ d.request.request_end (read_head rounds d)
            (λ c' e. read_head-request_end rounds d c' (λ n. cc) e))
    ]

received-Unread :
    (rounds : ℕ) (c d : Reading) (made : Bool) (old : Option ℕ)
    → Unread made old (parse_more rounds d)
    → Unread made old (received rounds c d)
unfolding received
received-Unread rounds c d made old h = elim (Bool-cases (length d.buf == length c.buf)) [
  | inl y ↦ rw y tt
  | inr n ↦ elim (Bool-cases (ltb (length d.buf) d.size)) [
    | inl y ↦ rw (n, y) h
    | inr m ↦ rw (n, m) tt
  ]
]

grow-request :
    (regrow : ℕ → Regrown) (c d : Reading) → grow regrow c ≡ some d → d.request ≡ c.request
unfolding grow
grow-request regrow c d e = ground arith

-- `read` leaves what the parsers keep.
read_into-request :
    (regrow : ℕ → Regrown) (b : Bytes) (c d : Reading)
    → read_into regrow b c ≡ some d
    → d.request ≡ c.request
unfolding read_into
read_into-request regrow b c d e = each (grow regrow c) refl e
  where
    each :
        (o : Option Reading)
        → grow regrow c ≡ o
        → elim o as (λ _. Option Reading) [
          | none ↦ none
          | some g ↦ some (record g { buf = g.buf ++ take (g.size - length g.buf) b })
        ]
          ≡ some d
        → d.request ≡ c.request
    each none k f = absurd cc
    each (some g) k f =
        let same : record g { buf = g.buf ++ take (g.size - length g.buf) b } ≡ d = cc in
        ap (λ (x : Reading). x.request) (sym same) ∙ grow-request regrow c g k

pub conn_read-Unread :
    (regrow : ℕ → Regrown) (rounds : ℕ) (got : Got) (c : Reading)
    → Unread (line_parsed regrow got c) c.request.request_end (conn_read regrow rounds got c)
unfolding line_parsed conn_read
conn_read-Unread regrow rounds failed c = tt
conn_read-Unread regrow rounds closed c = tt
conn_read-Unread regrow rounds (bytes b) c = each (read_into regrow b c) refl
  where
    each :
        (o : Option Reading)
        → read_into regrow b c ≡ o
        → Unread
            (elim o as (λ _. Bool) [ none ↦ false | some d ↦ line_ok d ])
            c.request.request_end
            (elim o as (λ _. ReadEnd) [ none ↦ dangles | some d ↦ received rounds c d ])
    each none k = tt
    each (some d) k =
        subst (λ (q : Request). Unread (line_ok d) q.request_end (received rounds c d))
          (read_into-request regrow b c d k)
          (received-Unread rounds c d (line_ok d) d.request.request_end
            (parse_more-Unread rounds d))

if_unset-true : (o : Option ℕ) (b : Bool) → if_unset o b ≡ true → o ≡ none
if_unset-true none b e = refl
if_unset-true (some p) b e = absurd (cc)

-- The maps are made only if the end of the request line was not set before.
pub line_parsed-once :
    (regrow : ℕ → Regrown) (got : Got) (c : Reading)
    → line_parsed regrow got c ≡ true
    → c.request.request_end ≡ none
unfolding line_parsed line_ok
line_parsed-once regrow failed c e = absurd (cc)
line_parsed-once regrow closed c e = absurd (cc)
line_parsed-once regrow (bytes b) c e = each (read_into regrow b c) refl e
  where
    each :
        (o : Option Reading)
        → read_into regrow b c ≡ o
        → elim o as (λ _. Bool) [ none ↦ false | some d ↦ line_ok d ] ≡ true
        → c.request.request_end ≡ none
    each none k f = absurd cc
    each (some d) k f =
        ap (λ (q : Request). q.request_end) (sym (read_into-request regrow b c d k))
        ∙ if_unset-true d.request.request_end (is_ok (parse_request_line d.buf d.request).0) f

-- A buffer that has to move is the only way to `dangles`.
received-Settled : (rounds : ℕ) (c d : Reading) → Settled (received rounds c d)
unfolding received
received-Settled rounds c d = elim (Bool-cases (length d.buf == length c.buf)) [
  | inl y ↦ rw y tt
  | inr n ↦ elim (Bool-cases (ltb (length d.buf) d.size)) [
    | inl y ↦ rw (n, y) (parse_more-Settled rounds d)
    | inr m ↦ rw (n, m) tt
  ]
]

regrown-some :
    (x : Regrown) (c g : Reading)
    → x ≢ Regrown.moved
    → elim x as (λ _. Option Reading) [
      | Regrown.no_memory ↦ some c
      | Regrown.in_place ↦ some g
      | Regrown.moved ↦ none
    ]
      ≢ none
regrown-some Regrown.no_memory c g h e = cc
regrown-some Regrown.in_place c g h e = cc
regrown-some Regrown.moved c g h e = h refl

grow-some :
    (regrow : ℕ → Regrown) (c : Reading)
    → ((n : ℕ) → regrow n ≢ Regrown.moved)
    → grow regrow c ≢ none
unfolding grow
grow-some regrow c h e = elim (Bool-cases (ltb (c.size - 512) (length c.buf))) [
  | inl y ↦
      regrown-some (regrow (c.size + reqbufpart + 1)) c _ (h (c.size + reqbufpart + 1)) (rw y at e)
  | inr n ↦ (let f = rw n at e in cc)
]

pub conn_read-Settled :
    (regrow : ℕ → Regrown) (rounds : ℕ) (got : Got) (c : Reading)
    → ((n : ℕ) → regrow n ≢ Regrown.moved)
    → Settled (conn_read regrow rounds got c)
unfolding conn_read read_into
conn_read-Settled regrow rounds failed c h = tt
conn_read-Settled regrow rounds closed c h = tt
conn_read-Settled regrow rounds (bytes b) c h = each (grow regrow c) refl
  where
    each :
        (o : Option Reading)
        → grow regrow c ≡ o
        → Settled
            (elim (elim o as (λ _. Option Reading) [
              | none ↦ none
              | some g ↦ some (record g { buf = g.buf ++ take (g.size - length g.buf) b })
            ])
              as (λ _. ReadEnd) [ none ↦ dangles | some d ↦ received rounds c d ])
    each none k = absurd (grow-some regrow c h k)
    each (some g) k = received-Settled rounds c _
