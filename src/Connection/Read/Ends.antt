-- ===== src/Connection/Read/Ends.antt =====
-- src/core/connection.cpp, `conn_read`: how an event ends, whatever the size of the buffer.
use evcp.Base.{
  ℕ, ◌≡◌, inl, inr, ap, refl, sym, ◌∙◌, [], Option, none, some, Bool, true, false, Bytes, ◌==◌,
  if◌then◌else◌, ltb, Bool-cases, Option-cases,
}
use evcp.Base.Maps.{StrMap}
use evcp.Request.{Code, ok, again, header_done, error, Request}
use evcp.Request.Http
use evcp.Request.Line.{parse_request_line}
use evcp.Request.Line.Resume.{Agrees, moved}
use evcp.Connection.Headers.{smallbuf, Headers, waits, all_read, running, read_headers}
use evcp.Connection.Headers.Parts.{SameEnd, same, last_read}
use evcp.Connection.Line.{Strings, copy_str}
use evcp.Connection.Read.{
  Reading, ReadEnd, again_later, processes, finishes, overruns, spins, respond_next, head_read,
  read_head, bad_request, with_line, line_cut, line_read, parse_more, dangles,
}

-- What is left of a request when it is handed on: all but the size of the buffer and the state of the
-- parsers.
abbrev pub Alike : Reading → Reading → Type 0
Alike c d =
    (c.buf ≡ d.buf)
    × ((c.line ≡ d.line)
        × ((c.get_vars ≡ d.get_vars)
            × ((c.list ≡ d.list)
                × ((c.post ≡ d.post) × ((c.cookies ≡ d.cookies) × (c.status ≡ d.status))))))

-- The event ends in the same way.
pub data SameAnswer : ReadEnd → ReadEnd → Type 0 where
  both_wait :
      (c d : Reading)
      → Alike c d
      → c.request ≡ d.request
      → SameAnswer (again_later c) (again_later d)
  both_process : (c d : Reading) → Alike c d → SameAnswer (processes c) (processes d)
  both_finish : (c d : Reading) → Alike c d → SameAnswer (finishes c) (finishes d)
  both_same : (e : ReadEnd) → SameAnswer e e

pub respond_next-SameAnswer :
    (c d : Reading) → Alike c d → SameAnswer (respond_next c) (respond_next d)
unfolding respond_next
respond_next-SameAnswer c d a =
    by_status (ltb c.status 299) (ltb d.status 299) (ap (λ (s : ℕ). ltb s 299) a.1.1.1.1.1.1)
  where
    by_status :
        (x y : Bool)
        → x ≡ y
        → SameAnswer (if x then processes c else finishes c) (if y then processes d else finishes d)
    by_status true true e = both_process c d a
    by_status false false e = both_finish c d a
    by_status true false e = absurd cc
    by_status false true e = absurd cc

head_read-SameAnswer :
    (c : Reading) (s j : ℕ)
    → SameAnswer
        (head_read (record c { size = s }))
        (head_read (record c { request = record c.request { lowcase_index = j } }))
unfolding head_read
head_read-SameAnswer c s j = elim (Bool-cases (c.request.method == Http.post)) [
  | inl y ↦ rw y (respond_next-SameAnswer _ _ (refl, (refl, (refl, (refl, (refl, (refl, refl)))))))
  | inr n ↦ rw n (respond_next-SameAnswer _ _ (refl, (refl, (refl, (refl, (refl, (refl, refl)))))))
]

-- The end of the loop over the header lines
abbrev pub ended : Reading → Headers → ReadEnd
ended c (waits r m) = again_later (record c { request = r; list = m })
ended c (all_read r m) = head_read (record c { request = r; list = m })
ended c running = spins

pub ended-SameAnswer :
    (c : Reading) (s : ℕ) (q₀ : Request) (m₀ : StrMap) (h k : Headers)
    → SameEnd h k
    → SameAnswer (ended (record c { size = s; request = q₀; list = m₀ }) h) (ended c k)
ended-SameAnswer c s q₀ m₀ h k (same (waits r m)) =
    both_wait (record c { size = s; request = r; list = m }) (record c { request = r; list = m })
      (refl, (refl, (refl, (refl, (refl, (refl, refl)))))) refl
ended-SameAnswer c s q₀ m₀ h k (same (all_read r m)) =
    head_read-SameAnswer (record c { request = r; list = m }) s r.lowcase_index
ended-SameAnswer c s q₀ m₀ h k (same running) = both_same spins
ended-SameAnswer c s q₀ m₀ h k (last_read q m j) =
    head_read-SameAnswer (record c { request = q; list = m }) s j

pub read_head-ended :
    (rounds : ℕ) (c : Reading)
    → read_head rounds c ≡ ended c (read_headers rounds c.buf c.request c.list)
unfolding read_head
read_head-ended rounds c = each (read_headers rounds c.buf c.request c.list)
  where
    each :
        (h : Headers)
        → elim h [
          | waits r m ↦ again_later (record c { request = r; list = m })
          | all_read r m ↦ head_read (record c { request = r; list = m })
          | running ↦ spins
        ]
          ≡ ended c h
    each (waits r m) = refl
    each (all_read r m) = refl
    each running = refl

pub read_head-size :
    (rounds : ℕ) (c : Reading) (s : ℕ)
    → SameAnswer (read_head rounds (record c { size = s })) (read_head rounds c)
read_head-size rounds c s =
    let h = read_headers rounds c.buf c.request c.list in
    rw (read_head-ended rounds (record c { size = s }), read_head-ended rounds c)
      (ended-SameAnswer c s c.request c.list h h (same h))

pub bad_end :
    (c : Reading) (s : ℕ) (q r : Request)
    → SameAnswer
        (respond_next (bad_request (record c { size = s; request = q })))
        (respond_next (bad_request (record c { request = r })))
bad_end c s q r =
    respond_next-SameAnswer (bad_request (record c { size = s; request = q }))
      (bad_request (record c { request = r })) (refl, (refl, (refl, (refl, (refl, (refl, refl))))))

line_cut-size :
    (rounds : ℕ) (c : Reading) (s : ℕ) (line : Strings) (refused : Bool)
    → SameAnswer
        (line_cut rounds (record c { size = s }) line refused)
        (line_cut rounds c line refused)
unfolding line_cut
line_cut-size rounds c s line refused = each (copy_str smallbuf line.request_line) refused
  where
    each :
        (o : Option Bytes) (b : Bool)
        → SameAnswer
            (elim o [
              | none ↦ overruns
              | some copy ↦
                  if b
                  then respond_next (bad_request (record c { size = s; list = [] }))
                  else read_head rounds (with_line line (record c { size = s }))
            ])
            (elim o [
              | none ↦ overruns
              | some copy ↦
                  if b
                  then respond_next (bad_request (record c { list = [] }))
                  else read_head rounds (with_line line c)
            ])
    each none b = both_same overruns
    each (some copy) true = bad_end (record c { list = [] }) s c.request c.request
    each (some copy) false = read_head-size rounds (with_line line c) s

-- What follows a call of the request line's parser.
abbrev pub by_code : ℕ → Reading → Code × Request → ReadEnd
by_code rounds c (again, r) = again_later (record c { request = r })
by_code rounds c (ok, r) = line_read rounds (record c { request = r })
by_code rounds c (header_done, r) = respond_next (bad_request (record c { request = r }))
by_code rounds c (error e, r) = respond_next (bad_request (record c { request = r }))

pub parse_more-by_code :
    (rounds : ℕ) (c : Reading)
    → c.request.request_end ≡ none
    → parse_more rounds c ≡ by_code rounds c (parse_request_line c.buf c.request)
unfolding parse_more
parse_more-by_code rounds c e =
    ap
      (λ (o : Option ℕ). elim o [
        | some end ↦ read_head rounds c
        | none ↦ next (parse_request_line c.buf c.request)
      ])
      e
    ∙ each (parse_request_line c.buf c.request)
  where
    next : Code × Request → ReadEnd
    next x = elim x.0 [
      | again ↦ again_later (record c { request = x.1 })
      | ok ↦ line_read rounds (record c { request = x.1 })
      | header_done ↦ respond_next (bad_request (record c { request = x.1 }))
      | error e ↦ respond_next (bad_request (record c { request = x.1 }))
    ]

    each : (x : Code × Request) → next x ≡ by_code rounds c x
    each (again, r) = refl
    each (ok, r) = refl
    each (header_done, r) = refl
    each (error e, r) = refl

pub parse_more-headers :
    (rounds end : ℕ) (c : Reading)
    → c.request.request_end ≡ some end
    → parse_more rounds c ≡ read_head rounds c
unfolding parse_more
parse_more-headers rounds end c e = rw e refl

pub by_code-Agrees :
    (rounds s : ℕ) (c : Reading) (q : Request) (x y : Code × Request)
    → Agrees x y
    → SameAnswer (by_code rounds (record c { size = s; request = q }) x) (by_code rounds c y)
unfolding line_read
by_code-Agrees rounds s c q (again, r) y (inl e) =
    rw (sym e) (both_wait _ _ (refl, (refl, (refl, (refl, (refl, (refl, refl)))))) refl)
by_code-Agrees rounds s c q (ok, r) y (inl e) =
    rw (sym e) (line_cut-size rounds (record c { request = r }) s _ _)
by_code-Agrees rounds s c q (header_done, r) y (inl e) = rw (sym e) (bad_end c s r r)
by_code-Agrees rounds s c q (error w, r) y (inl e) = rw (sym e) (bad_end c s r r)
by_code-Agrees rounds s c q (again, r) y (inr (w, a, t, h, e)) = absurd cc
by_code-Agrees rounds s c q (ok, r) y (inr (w, a, t, h, e)) = absurd cc
by_code-Agrees rounds s c q (header_done, r) y (inr (w, a, t, h, e)) = absurd cc
by_code-Agrees rounds s c q (error w, r) y (inr (w', a, t, h, e)) =
    rw e (bad_end c s r (moved a t r))

-- The pointers are not left behind.
abbrev pub Settled : ReadEnd → Type 0
Settled dangles = ⊥
Settled _ = Unit

respond_next-Settled : (c : Reading) → Settled (respond_next c)
unfolding respond_next
respond_next-Settled c = elim (Bool-cases (ltb c.status 299)) [ inl y ↦ rw y tt | inr n ↦ rw n tt ]

ended-Settled : (c : Reading) (h : Headers) → Settled (ended c h)
ended-Settled c (waits r m) = tt
ended-Settled c (all_read r m) = unfold head_read in respond_next-Settled _
ended-Settled c running = tt

read_head-Settled : (rounds : ℕ) (c : Reading) → Settled (read_head rounds c)
read_head-Settled rounds c = rw (read_head-ended rounds c) (ended-Settled c _)

line_cut-Settled :
    (rounds : ℕ) (c : Reading) (line : Strings) (refused : Bool)
    → Settled (line_cut rounds c line refused)
unfolding line_cut
line_cut-Settled rounds c line refused = each (copy_str smallbuf line.request_line) refused
  where
    each :
        (o : Option Bytes) (b : Bool)
        → Settled (elim o [
          | none ↦ overruns
          | some copy ↦
              if b
              then respond_next (bad_request (record c { list = [] }))
              else read_head rounds (with_line line c)
        ])
    each none b = tt
    each (some copy) true = respond_next-Settled (bad_request (record c { list = [] }))
    each (some copy) false = read_head-Settled rounds (with_line line c)

by_code-Settled : (rounds : ℕ) (c : Reading) (x : Code × Request) → Settled (by_code rounds c x)
unfolding line_read
by_code-Settled rounds c (again, r) = tt
by_code-Settled rounds c (ok, r) = line_cut-Settled rounds (record c { request = r }) _ _
by_code-Settled rounds c (header_done, r) =
    respond_next-Settled (bad_request (record c { request = r }))
by_code-Settled rounds c (error e, r) =
    respond_next-Settled (bad_request (record c { request = r }))

pub parse_more-Settled : (rounds : ℕ) (c : Reading) → Settled (parse_more rounds c)
parse_more-Settled rounds c = elim (Option-cases c.request.request_end) [
  | inl n ↦ rw (parse_more-by_code rounds c n) (by_code-Settled rounds c _)
  | inr (end, k) ↦ rw (parse_more-headers rounds end c k) (read_head-Settled rounds c)
]
